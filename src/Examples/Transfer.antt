-- ===== src/Examples/Transfer.antt =====
-- `read` and its kin over `test::read_stream`, five bytes of data delivered two at a time.
use capy.Base.{◌*◌, ◌≡◌, ◌≤◌, refl, List, [], ◌∷◌, false, some, arith, ◌⊎◌, ◌<◌}
use capy.Error.{capy_error, Error, generic, Errc}
use capy.Buffers.{Buffer, make_buffer}
use capy.Transfer.{read, read_at_least}
use capy.Transfer.Complete.{Finished, read-Finished, read_at_least-Finished}
use capy.Testing.Fuse.{fuse}
use capy.Testing.ReadStream.{ReadStream}
use capy.Testing.ReadStream.Moved.{Ready}
use capy.Testing.ReadStream.Contract.{Reads, read_some-Reads, read_some_value, read_stream}

abbrev target : List Buffer
target = make_buffer 10 1 ∷ make_buffer 20 2 ∷ []

abbrev supplied : ReadStream
supplied = record {
  memory = λ a. a * 2;
  f = fuse (capy_error Error.test_failure);
  storage = 100;
  size = 5;
  pos = 0;
  max_read_size = 2;
  stop = false;
}

supplied-Ready : Ready supplied (10 ∷ 20 ∷ 21 ∷ [])
unfolding fuse
supplied-Ready = record {
  chunk = omega arith;
  calm = refl;
  inside = omega arith;
  distinct = (refl, (refl, (refl, tt)));
  fits = omega arith;
  apart = (refl, (refl, (refl, (refl, (refl, tt)))));
}

read-Finished_example :
    Finished read_stream (10 ∷ 20 ∷ 21 ∷ []) supplied 3 (read read_some_value supplied target)
read-Finished_example =
    read-Finished read_stream supplied target (omega arith) (refl, (refl, (refl, tt)))
      supplied-Ready

read_some-Reads_example : Reads supplied target
read_some-Reads_example = read_some-Reads supplied target supplied-Ready (omega arith)

read_at_least-Finished_example :
    ((3 < 2)
      × (read_at_least read_some_value supplied target 2
          ≡ some (supplied, some (generic Errc.invalid_argument), 0)))
    ⊎ ((2 ≤ 3)
        × Finished read_stream
            (10 ∷ 20 ∷ 21 ∷ [])
            supplied
            2
            (read_at_least read_some_value supplied target 2))
read_at_least-Finished_example =
    read_at_least-Finished read_stream supplied target (omega arith) (refl, (refl, (refl, tt)))
      supplied-Ready 2
