-- ===== src/Examples/Writing.antt =====
-- `write` and its kin over `test::write_stream`, three bytes accepted two at a time.
use capy.Base.{◌*◌, ◌≡◌, ◌≤◌, refl, List, [], ◌∷◌, false, some, arith, ◌⊎◌, ◌<◌}
use capy.Error.{capy_error, Error, generic, Errc}
use capy.Buffers.{Buffer, make_buffer}
use capy.Transfer.{write, write_at_least}
use capy.Transfer.Complete.{Finished, write-Finished, write_at_least-Finished}
use capy.Testing.Fuse.{fuse}
use capy.Testing.WriteStream.{WriteStream}
use capy.Testing.WriteStream.Moved.{Ready}
use capy.Testing.WriteStream.Contract.{Writes, write_some-Writes, write_some_value, write_stream}

abbrev source : List Buffer
source = make_buffer 10 1 ∷ make_buffer 20 2 ∷ []

abbrev sink : WriteStream
sink = record {
  memory = λ a. a * 2;
  f = fuse (capy_error Error.test_failure);
  storage = 100;
  data_ = 1 ∷ [];
  expect_ = [];
  max_write_size = 2;
  stop = false;
}

sink-Ready : Ready sink (10 ∷ 20 ∷ 21 ∷ [])
unfolding fuse
sink-Ready = record {
  chunk = omega arith;
  calm = refl;
  open_ = refl;
  fits = omega arith;
  below = (omega arith, (omega arith, (omega arith, tt)));
}

write_some-Writes_example : Writes sink source
write_some-Writes_example = write_some-Writes sink source sink-Ready (omega arith)

write-Finished_example :
    Finished write_stream (10 ∷ 20 ∷ 21 ∷ []) sink 3 (write write_some_value sink source)
write-Finished_example =
    write-Finished write_stream sink source (omega arith) (refl, (refl, (refl, tt))) sink-Ready

write_at_least-Finished_example :
    ((3 < 5)
      × (write_at_least write_some_value sink source 5
          ≡ some (sink, some (generic Errc.invalid_argument), 0)))
    ⊎ ((5 ≤ 3)
        × Finished write_stream
            (10 ∷ 20 ∷ 21 ∷ [])
            sink
            5
            (write_at_least write_some_value sink source 5))
write_at_least-Finished_example =
    write_at_least-Finished write_stream sink source (omega arith) (refl, (refl, (refl, tt)))
      sink-Ready 5
