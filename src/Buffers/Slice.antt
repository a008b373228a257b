-- ===== src/Buffers/Slice.antt =====
-- include/boost/capy/detail/slice_of.hpp, buffers/buffer_slice.hpp and buffers/consuming_buffers.hpp.
-- A pair of iterators is the list of the buffers between them. Each `-` below is guarded by the
-- test before it, but for those in `adjust`, which wrap as `std::size_t` does.
pub mod View
pub mod Consume
use capy.Base.{
  ℕ, ◌+◌, ◌-◌, ◌%◌, Bool, true, false, List, [], ◌∷◌, ltb, leb, ◌==◌, if◌then◌else◌, size_mod,
  size_max,
}
use capy.Buffers.{Buffer, make_buffer, advance}

-- `slice_of<BS>`: `items` runs from `first_` to `last_`.
pub record Slice : Type 0 where
  pub items : List Buffer
  pub front_skip : ℕ
  pub back_skip : ℕ

abbrev pub sub_size : ℕ → ℕ → ℕ
sub_size a b = (a + size_mod - b) % size_mod

unfoldable pub adjust : Buffer → ℕ → ℕ → Buffer
adjust b front_n back_n = record {
  data_ = b.data_ + front_n;
  size = sub_size (sub_size b.size front_n) back_n;
}

-- `back_n` in `operator*`: the skip applies to the buffer before `anchor_last_`.
abbrev pub last_skip : ℕ → List Buffer → ℕ
last_skip back [] = back
last_skip back (_ ∷ _) = 0

-- What `operator*` yields from here on; only at the first buffer is `front` the front skip.
unfoldable pub adjusted : ℕ → ℕ → List Buffer → List Buffer
adjusted front back [] = []
adjusted front back (b ∷ bs) = adjust b front (last_skip back bs) ∷ adjusted 0 back bs

-- The buffers that iteration from `begin()` to `end()` yields.
unfoldable pub buffers : Slice → List Buffer
unfolding adjusted
buffers s = adjusted s.front_skip s.back_skip s.items

-- The first loop of the constructor: `first_` and `front_skip_` at byte `skip`.
unfoldable pub seek : ℕ → List Buffer → List Buffer × ℕ
seek skip [] = ([], 0)
seek skip (b ∷ bs) =
    let past = seek (skip - b.size) bs in if ltb skip b.size then (b ∷ bs, skip) else past

-- The second loop: the buffers before `last_`, and `back_skip_`.
unfoldable pub walk : ℕ → ℕ → List Buffer → List Buffer × ℕ
walk left cursor_front [] = ([], 0)
walk left cursor_front (b ∷ bs) =
    let avail = b.size - cursor_front in
    let (more, back) = walk (left - avail) 0 bs in
    if left == 0
    then ([], 0)
    else if leb left avail
    then (b ∷ [], avail - left)
    else (b ∷ more, back)

-- The end of the constructor: an empty slice, the slice to the end, or `length` bytes of it.
unfoldable pub bounded : List Buffer → ℕ → ℕ → Slice
unfolding walk
bounded [] front length = record { items = []; front_skip = front; back_skip = 0 }
bounded (b ∷ bs) front length =
    let (kept, back) = walk length front (b ∷ bs) in
    if length == size_max
    then record { items = b ∷ bs; front_skip = front; back_skip = 0 }
    else record { items = kept; front_skip = front; back_skip = back }

unfoldable pub slice_of : List Buffer → ℕ → ℕ → Slice
unfolding seek bounded
slice_of bs offset length = let (items, front) = seek offset bs in bounded items front length

-- `buffer_slice` of a single buffer.
unfoldable pub buffer_slice : Buffer → ℕ → ℕ → Buffer
unfolding advance
buffer_slice seq offset length =
    let b = advance seq offset in if ltb length b.size then make_buffer b.data_ length else b

-- `consuming_buffers<Seq>`: `items` runs from `first_` to `last_`.
pub record Consuming : Type 0 where
  pub items : List Buffer
  pub front_skip : ℕ

unfoldable pub consuming_buffers : List Buffer → Consuming
consuming_buffers s = record { items = s; front_skip = 0 }

unfoldable pub remaining : Consuming → Slice
remaining c = record { items = c.items; front_skip = c.front_skip; back_skip = 0 }

unfoldable pub consume_loop : ℕ → ℕ → List Buffer → Consuming
consume_loop n front [] = record { items = []; front_skip = front }
consume_loop n front (b ∷ bs) =
    let avail = b.size - front in
    let past = consume_loop (n - avail) 0 bs in
    if n == 0
    then record { items = b ∷ bs; front_skip = front }
    else if ltb n avail
    then record { items = b ∷ bs; front_skip = front + n }
    else past

unfoldable pub consume : Consuming → ℕ → Consuming
unfolding consume_loop
consume c n = consume_loop n c.front_skip c.items
