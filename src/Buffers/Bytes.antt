-- ===== src/Buffers/Bytes.antt =====
-- The abstract view of a buffer sequence: the addresses of its bytes, in order.
use capy.Base.{
  ℕ, zero, suc, ◌+◌, ◌-◌, ◌≤◌, ◌<◌, ◌≡◌, refl, sym, ap, ap₂, ◌∙◌, inl, inr, List, [], ◌∷◌, ◌++◌,
  arith, length, take, drop, length-append, ltb, drop-of_ge, drop-append_le, drop-append_ge,
  Bool-cases, ◌==◌, size_mod, ◌%◌,
}
use capy.Buffers.{Buffer, advance, size_loop, buffer_size, buffer_empty}

abbrev pub range : ℕ → ℕ → List ℕ
range p zero = []
range p (suc n) = p ∷ range (suc p) n

abbrev pub bytes : Buffer → List ℕ
bytes b = range b.data_ b.size

abbrev pub bytes_of : List Buffer → List ℕ
bytes_of [] = []
bytes_of (b ∷ bs) = bytes b ++ bytes_of bs

pub length-range : (p n : ℕ) → length (range p n) ≡ n
length-range p zero = refl
length-range p (suc n) = ap suc (length-range (suc p) n)

pub drop-range : (k p n : ℕ) → k ≤ n → drop k (range p n) ≡ range (p + k) (n - k)
drop-range zero p n h = ap₂ range (omega arith) (omega arith)
drop-range (suc k) p zero h = absurd (omega arith)
drop-range (suc k) p (suc n) h =
    drop-range k (suc p) n (omega arith) ∙ ap₂ range (omega arith) (omega arith)

pub take-range : (k p n : ℕ) → k ≤ n → take k (range p n) ≡ range p k
take-range zero p n h = refl
take-range (suc k) p zero h = absurd (omega arith)
take-range (suc k) p (suc n) h = ap (◌∷◌ p) (take-range k (suc p) n (omega arith))

pub bytes-advance : (b : Buffer) (n : ℕ) → bytes (advance b n) ≡ drop n (bytes b)
unfolding advance
bytes-advance b n = elim (Bool-cases (ltb b.size n)) [
  | inl past ↦ rw past (
      ap (range (b.data_ + b.size)) {y = 0} (omega arith)
      ∙ sym (drop-of_ge n (bytes b) (ground (arith, length-range b.data_ b.size))))
  | inr within ↦ rw within (sym (drop-range n b.data_ b.size (ground arith)))
]

pub length-bytes_of_cons :
    (b : Buffer) (bs : List Buffer) → length (bytes_of (b ∷ bs)) ≡ b.size + length (bytes_of bs)
length-bytes_of_cons b bs =
    omega (arith, length-append (bytes b) (bytes_of bs), length-range b.data_ b.size)

size_loop-bytes :
    (n : ℕ) (bs : List Buffer)
    → n + length (bytes_of bs) < size_mod
    → size_loop n bs ≡ n + length (bytes_of bs)
unfolding size_loop
size_loop-bytes n [] h = omega arith
size_loop-bytes n (b ∷ bs) h = omega (
  arith,
  length-bytes_of_cons b bs,
  size_loop-bytes ((n + b.size) % size_mod) bs (omega (arith, length-bytes_of_cons b bs)),
)

-- Wherever the number of bytes of a sequence is below 2^64, buffer_size returns it.
pub buffer_size-bytes :
    (bs : List Buffer) → length (bytes_of bs) < size_mod → buffer_size bs ≡ length (bytes_of bs)
unfolding buffer_size
buffer_size-bytes bs h = size_loop-bytes 0 bs (omega arith) ∙ omega arith

-- `buffer_empty` says whether the sequence has no byte.
pub buffer_empty-bytes : (bs : List Buffer) → buffer_empty bs ≡ (length (bytes_of bs) == 0)
unfolding buffer_empty
buffer_empty-bytes [] = refl
buffer_empty-bytes (b ∷ bs) = ground (arith, length-bytes_of_cons b bs, buffer_empty-bytes bs)

-- A position in the first buffer of what is left.
abbrev pub Inside : List Buffer → ℕ → Type 0
Inside [] front = Unit {0}
Inside (b ∷ bs) front = front ≤ b.size

pub Inside-zero : (bs : List Buffer) → Inside bs 0
Inside-zero [] = tt
Inside-zero (b ∷ bs) = omega arith

-- The sequence has less than `2 ^ 64` bytes.
abbrev pub Fits : List Buffer → Type 0
Fits bs = length (bytes_of bs) < size_mod

pub Fits-cons : (b : Buffer) (bs : List Buffer) → Fits (b ∷ bs) → (b.size < size_mod) × Fits bs
Fits-cons b bs h =
    (omega (arith, length-bytes_of_cons b bs), omega (arith, length-bytes_of_cons b bs))

-- A cut of the bytes that falls in the first buffer, or behind it.
pub drop-bytes_le :
    (b : Buffer) (bs : List Buffer) (f : ℕ)
    → f ≤ b.size
    → drop f (bytes_of (b ∷ bs)) ≡ drop f (bytes b) ++ bytes_of bs
drop-bytes_le b bs f h =
    drop-append_le f (bytes b) (bytes_of bs) (omega (arith, length-range b.data_ b.size))

pub drop-bytes_ge :
    (b : Buffer) (bs : List Buffer) (f : ℕ)
    → b.size ≤ f
    → drop f (bytes_of (b ∷ bs)) ≡ drop (f - b.size) (bytes_of bs)
drop-bytes_ge b bs f h =
    drop-append_ge f (bytes b) (bytes_of bs) (omega (arith, length-range b.data_ b.size))
    ∙ ap (λ k. drop (f - k) (bytes_of bs)) (length-range b.data_ b.size)
