-- ===== src/Examples/Streams.antt =====
-- A read waits on one end of a stream pair until the other end writes; and a pair whose fuse injects
-- an error.
use capy.Base.{◌≡◌, ◌+◌, refl, true, false, List, [], ◌∷◌, ◌++◌, arith}
use capy.Error.{capy_error, Error}
use capy.Buffers.{Buffer, make_buffer, buffer_size, buffer_empty, size_loop, advance}
use capy.Buffers.Copy.{
  Memory, buffer_copy, copy_loop, copy_amount, step_cursor, memcpy, move_bytes, after_copy, store,
}
use capy.Testing.Fuse.{Fuse, fuse, maybe_fail}
use capy.Testing.Stream.{
  Pair, make_stream_pair, close, set_half, set_reader, wake, woken, read_ready, read_suspend,
  write_some, write_fused, put,
}
use capy.Testing.Stream.System.{System, Reach, start, begin, then_, parks, writes, did_write}
use capy.Testing.Stream.Awake.{Attentive}
use capy.Testing.Stream.Resumed.{Reach-Attentive}
use capy.Testing.Stream.Channel.{Reach-Flows}
use capy.Testing.Stream.Broken.{Broken, passed_on, writing, injected-Broken}

abbrev memory : Memory
memory a = a + 7

abbrev quiet_fuse : Fuse
unfolding fuse
quiet_fuse = fuse (capy_error Error.test_failure)

abbrev into : List Buffer
into = make_buffer 10 4 ∷ []

abbrev from : List Buffer
from = make_buffer 20 1 ∷ make_buffer 30 2 ∷ []

abbrev opened : System
opened = start memory quiet_fuse 1000 2000

abbrev parked : System
parked = record opened { pair = (read_suspend opened.pair true 1 false).0 }

abbrev written : System
written = did_write parked false from (write_some parked.pair false from false)

parked-Reach : Reach parked
unfolding start make_stream_pair read_ready buffer_empty
parked-Reach = then_ (begin memory quiet_fuse 1000 2000) (parks true 1 into refl refl refl)

written-Reach : Reach written
unfolding start make_stream_pair read_suspend set_half set_reader
written-Reach =
    then_ parked-Reach
      (writes false from false record { fits = omega arith; apart = (refl, (refl, (refl, tt))) })

written_test : (written.pair.posted ≡ 1 ∷ []) × ((written.pair.sides true).buf ≡ 27 ∷ 37 ∷ 38 ∷ [])
unfolding fuse start make_stream_pair read_suspend set_half set_reader write_some write_fused
    maybe_fail put wake woken buffer_size size_loop buffer_copy copy_loop copy_amount step_cursor
    advance memcpy move_bytes after_copy store
written_test = (refl, refl)

Reach-Attentive_example : Attentive written.pair
Reach-Attentive_example = Reach-Attentive written-Reach

Reach-Flows_example : written.sent true ≡ written.received true ++ (written.pair.sides true).buf
Reach-Flows_example = Reach-Flows written-Reach true

abbrev failing : Fuse
failing = record quiet_fuse { inert = false; n = 0 }

abbrev fragile : Pair
fragile = make_stream_pair memory failing 1000 2000

-- The end `true` has got the end of its stream, and writes.
abbrev half_closed : Pair
half_closed = close fragile false

ended_test : (half_closed.sides true).eof ≡ true
unfolding make_stream_pair close set_half wake woken
ended_test = refl

injected-Broken_example :
    Broken (write_some half_closed true into false).0
    × ((write_some half_closed true into false).1 ≡ passed_on (maybe_fail half_closed.f 0).1)
unfolding make_stream_pair fuse maybe_fail buffer_size size_loop close set_half wake woken
injected-Broken_example =
    injected-Broken half_closed (write_some half_closed true into false) refl refl
      (writing true into refl)
