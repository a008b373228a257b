-- ===== src/Buffers/Array.antt =====
-- include/boost/capy/detail/buffer_array.hpp: at most `N` buffers in place. `arr_` is the list of the
-- elements that were constructed.
pub mod Fill
use capy.Base.{
  ℕ, ◌+◌, ◌%◌, Bool, true, false, List, [], ◌∷◌, ◌++◌, Option, none, some, ltb, leb, ◌==◌,
  if◌then◌else◌, take, size_mod,
}
use capy.Buffers.{Buffer}

pub record BufferArray : Type 0 where
  pub n_ : ℕ
  pub size_ : ℕ
  pub arr_ : List Buffer

abbrev pub empty_array : BufferArray
empty_array = record { n_ = 0; size_ = 0; arr_ = [] }

-- `::new(&arr_[n_++])` and the sum of the sizes.
unfoldable pub add : BufferArray → Buffer → BufferArray
add a b = record { n_ = a.n_ + 1; size_ = (a.size_ + b.size) % size_mod; arr_ = a.arr_ ++ b ∷ [] }

unfoldable pub of_buffer : Buffer → BufferArray
of_buffer b = if b.size == 0 then empty_array else record { n_ = 1; size_ = b.size; arr_ = b ∷ [] }

unfoldable pub fill : ℕ → BufferArray → List Buffer → BufferArray
unfolding add
fill N a [] = a
fill N a (b ∷ bs) =
    let skipped = fill N a bs in
    let added = fill N (add a b) bs in
    if ltb a.n_ N then (if b.size == 0 then skipped else added) else a

unfoldable pub of_sequence : ℕ → List Buffer → BufferArray
unfolding fill
of_sequence N bs = fill N empty_array bs

-- `none` is the exception.
unfoldable pub fill_checked : ℕ → BufferArray → List Buffer → Option BufferArray
unfolding add
fill_checked N a [] = some a
fill_checked N a (b ∷ bs) =
    let skipped = fill_checked N a bs in
    let added = fill_checked N (add a b) bs in
    if b.size == 0 then skipped else (if leb N a.n_ then none else added)

unfoldable pub of_sequence_checked : ℕ → List Buffer → Option BufferArray
unfolding fill_checked
of_sequence_checked N bs = fill_checked N empty_array bs

unfoldable pub copy_array : BufferArray → BufferArray
copy_array other = record { n_ = other.n_; size_ = other.size_; arr_ = take other.n_ other.arr_ }

unfoldable pub to_span : BufferArray → List Buffer
to_span a = take a.n_ a.arr_

unfoldable pub byte_size : BufferArray → ℕ
byte_size a = a.size_
