-- ===== src/Transfer.antt =====
-- include/boost/capy/read.hpp, read_at_least.hpp, write.hpp and write_at_least.hpp: the loops that
-- call `read_some` or `write_some` until enough bytes have moved. A coroutine that awaits is the
-- function of its await-results; the stream is the parameter `some_`, over a state `S` that holds
-- the stream and the memory.
pub mod Transport
pub mod Complete
use capy.Base.{ℕ, zero, suc, ◌+◌, ◌%◌, List, Option, none, some, ◌&&◌, ltb, if◌then◌else◌, size_mod}
use capy.Error.{Ec, is_set, Errc, invalid_argument, generic}
use capy.Buffers.{Buffer, buffer_size}
use capy.Buffers.Slice.{Consuming, consuming_buffers, remaining, buffers, consume}

module _ {S : Type 0} (some_ : S → List Buffer → S × Ec × ℕ) where
  -- `while(total < n)`, on fuel; the outer `none` means that the fuel ran out.
  unfoldable pub transfer_loop : ℕ → S → Consuming → ℕ → ℕ → Option (S × Ec × ℕ)
  transfer_loop zero s consuming n total = none
  transfer_loop (suc fuel) s consuming n total =
      let (s', ec, m) = some_ s (buffers (remaining consuming)) in
      let total' = (total + m) % size_mod in
      let next = transfer_loop fuel s' (consume consuming m) n total' in
      let round = if is_set ec && ltb total' n then some (s', ec, total') else next in
      if ltb total n then round else some (s, none, total)

  -- One more round than there are bytes is enough for a conforming stream.
  unfoldable pub read : S → List Buffer → Option (S × Ec × ℕ)
  unfolding transfer_loop
  read s bs =
      let total_size = buffer_size bs in
      transfer_loop (suc total_size) s (consuming_buffers bs) total_size 0

  unfoldable pub read_at_least : S → List Buffer → ℕ → Option (S × Ec × ℕ)
  unfolding transfer_loop
  read_at_least s bs n =
      let total_size = buffer_size bs in
      let run = transfer_loop (suc total_size) s (consuming_buffers bs) n 0 in
      if ltb total_size n then some (s, some (generic invalid_argument), 0) else run

  unfoldable pub write : S → List Buffer → Option (S × Ec × ℕ)
  unfolding transfer_loop
  write s bs =
      let total_size = buffer_size bs in
      transfer_loop (suc total_size) s (consuming_buffers bs) total_size 0

  unfoldable pub write_at_least : S → List Buffer → ℕ → Option (S × Ec × ℕ)
  unfolding transfer_loop
  write_at_least s bs n =
      let total_size = buffer_size bs in
      let run = transfer_loop (suc total_size) s (consuming_buffers bs) n 0 in
      if ltb total_size n then some (s, some (generic invalid_argument), 0) else run
