-- ===== src/Buffers.antt =====
-- include/boost/capy/buffers.hpp and buffers/front.hpp: a buffer is a pointer and a size, a buffer
-- sequence is the list of the buffers that its iterators run over. An address is a number, the null
-- pointer is 0. `mutable_buffer` and `const_buffer` have the same fields and the same code, so one
-- record stands for both.
pub mod Bytes
pub mod Copy
pub mod Slice
pub mod Array
use capy.Base.{
  ℕ, ◌+◌, ◌-◌, ◌%◌, Bool, true, false, List, [], ◌∷◌, ltb, ◌==◌, if◌then◌else◌, size_mod,
}

pub record Buffer : Type 0 where
  pub data_ : ℕ
  pub size : ℕ

-- `mutable_buffer()`, `const_buffer()`.
abbrev pub empty_buffer : Buffer
empty_buffer = record { data_ = 0; size = 0 }

abbrev pub make_buffer : ℕ → ℕ → Buffer
make_buffer p n = record { data_ = p; size = n }

-- `operator+=`: skips `n` bytes, clamped to the size.
unfoldable pub advance : Buffer → ℕ → Buffer
advance b n =
    let k = if ltb b.size n then b.size else n in record { data_ = b.data_ + k; size = b.size - k }

unfoldable pub size_loop : ℕ → List Buffer → ℕ
size_loop n [] = n
size_loop n (b ∷ bs) = size_loop ((n + b.size) % size_mod) bs

unfoldable pub buffer_size : List Buffer → ℕ
unfolding size_loop
buffer_size bs = size_loop 0 bs

-- The early return on a buffer that is not empty.
unfoldable pub buffer_empty : List Buffer → Bool
buffer_empty [] = true
buffer_empty (b ∷ bs) = if b.size == 0 then buffer_empty bs else false

length_loop : ℕ → List Buffer → ℕ
length_loop n [] = n
length_loop n (b ∷ bs) = length_loop ((n + 1) % size_mod) bs

unfoldable pub buffer_length : List Buffer → ℕ
unfolding length_loop
buffer_length bs = length_loop 0 bs

unfoldable pub front : List Buffer → Buffer
front [] = empty_buffer
front (b ∷ bs) = b
