-- ===== src/Buffers/Array/Fill.antt =====
-- What an array holds of a sequence: its first buffers that are not empty.
use capy.Base.{
  ℕ, suc, ◌+◌, ◌-◌, ◌%◌, ◌≤◌, ◌<◌, ◌≡◌, refl, sym, ap, subst, ◌∙◌, arith, true, false, List, [],
  ◌∷◌, ◌++◌, Option, none, some, ltb, leb, ◌==◌, if◌then◌else◌, take, length, size_mod, inl, inr,
  ◌⊎◌, Bool-cases, append-nil, append_assoc, take-nil, length-append, take-of_ge,
}
use capy.Buffers.{Buffer, size_loop, buffer_size}
use capy.Buffers.Bytes.{bytes_of, range}
use capy.Buffers.Array.{
  BufferArray, empty_array, add, fill, of_sequence, fill_checked, of_sequence_checked, copy_array,
  to_span, byte_size,
}

-- The buffers that are not empty.
unfoldable pub kept : List Buffer → List Buffer
kept [] = []
kept (b ∷ bs) = if b.size == 0 then kept bs else b ∷ kept bs

kept_empty : (b : Buffer) (bs : List Buffer) → (b.size == 0) ≡ true → kept (b ∷ bs) ≡ kept bs
unfolding kept
kept_empty b bs h = rw h refl

kept_full : (b : Buffer) (bs : List Buffer) → (b.size == 0) ≡ false → kept (b ∷ bs) ≡ b ∷ kept bs
unfolding kept
kept_full b bs h = rw h refl

-- Empty buffers hold no bytes.
pub bytes_of-kept : (bs : List Buffer) → bytes_of (kept bs) ≡ bytes_of bs
unfolding kept
bytes_of-kept [] = refl
bytes_of-kept (b ∷ bs) = elim (Bool-cases (b.size == 0)) [
  | inl e ↦
      let nothing : 0 ≡ b.size = ground (arith, e) in
      ap bytes_of (kept_empty b bs e)
      ∙ bytes_of-kept bs
      ∙ ap (λ n. range b.data_ n ++ bytes_of bs) nothing
  | inr e ↦ ap bytes_of (kept_full b bs e) ∙ ap (λ l. range b.data_ b.size ++ l) (bytes_of-kept bs)
]

size_loop-snoc :
    (n : ℕ) (bs : List Buffer) (b : Buffer)
    → size_loop n (bs ++ b ∷ []) ≡ (size_loop n bs + b.size) % size_mod
unfolding size_loop
size_loop-snoc n [] b = refl
size_loop-snoc n (x ∷ xs) b = size_loop-snoc ((n + x.size) % size_mod) xs b

record Stored (a : BufferArray) (bs : List Buffer) : Type 0 where
  count : a.n_ ≡ length bs
  size : a.size_ ≡ buffer_size bs
  elements : a.arr_ ≡ bs

length-snoc : (bs : List Buffer) (b : Buffer) → length (bs ++ b ∷ []) ≡ length bs + 1
length-snoc bs b = length-append bs (b ∷ [])

add-Stored :
    (a : BufferArray) (bs : List Buffer) (b : Buffer)
    → Stored a bs
    → Stored (add a b) (bs ++ b ∷ [])
unfolding add buffer_size
add-Stored a bs b s = record {
  count = omega (arith, s.count, length-snoc bs b);
  size = ap (λ n. (n + b.size) % size_mod) s.size ∙ sym (size_loop-snoc 0 bs b);
  elements = ap (λ l. l ++ b ∷ []) s.elements;
}

take-snoc :
    (N : ℕ) (old rest : List Buffer) (b : Buffer)
    → length old < N
    → (old ++ b ∷ []) ++ take (N - length (old ++ b ∷ [])) rest
      ≡ old ++ take (N - length old) (b ∷ rest)
take-snoc N old rest b h =
    let left : N - length old ≡ suc (N - length (old ++ b ∷ [])) =
      omega (arith, h, length-snoc old b) in
    append_assoc old (b ∷ []) (take (N - length (old ++ b ∷ [])) rest)
    ∙ ap (λ k. old ++ take k (b ∷ rest)) (sym left)

fill-Stored :
    (N : ℕ) (bs : List Buffer) (a : BufferArray) (old : List Buffer)
    → Stored a old
    → length old ≤ N
    → Stored (fill N a bs) (old ++ take (N - length old) (kept bs))
unfolding fill kept
fill-Stored N [] a old s h =
    subst (Stored a) (sym (ap (λ l. old ++ l) (take-nil (N - length old)) ∙ append-nil old)) s
fill-Stored N (b ∷ bs) a old s h = elim (Bool-cases (ltb a.n_ N)) [
  | inr full ↦
      let none_left : N - length old ≡ 0 = ground (arith, full, s.count, h) in
      rw full (
        subst (Stored a) (sym (ap (λ k. old ++ take k (kept (b ∷ bs))) none_left ∙ append-nil old))
          s)
  | inl room ↦ elim (Bool-cases (b.size == 0)) [
    | inl e ↦ rw (room, e) (fill-Stored N bs a old s h)
    | inr e ↦
        let below : length old < N = ground (arith, room, s.count) in
        rw (room, e)
          (subst (Stored (fill N (add a b) bs)) (take-snoc N old (kept bs) b below) (
            fill-Stored N bs (add a b) (old ++ b ∷ []) (add-Stored a old b s)
              (omega (arith, below, length-snoc old b))))
  ]
]

-- How the checked loop ends.
Ending : ℕ → List Buffer → Option BufferArray → Type 0
Ending N bs o =
    ((a : BufferArray) × (o ≡ some a) × (length bs ≤ N) × Stored a bs)
    ⊎ ((o ≡ none) × (N < length bs))

fill_checked-Ending :
    (N : ℕ) (bs : List Buffer) (a : BufferArray) (old : List Buffer)
    → Stored a old
    → length old ≤ N
    → Ending N (old ++ kept bs) (fill_checked N a bs)
unfolding Ending fill_checked kept
fill_checked-Ending N [] a old s h =
    subst (λ l. Ending N l (some a)) (sym (append-nil old)) (inl (a, refl, h, s))
fill_checked-Ending N (b ∷ bs) a old s h = elim (Bool-cases (b.size == 0)) [
  | inl e ↦ rw e (fill_checked-Ending N bs a old s h)
  | inr e ↦ elim (Bool-cases (leb N a.n_)) [
    | inl full ↦
        let here : N ≤ length old = ground (arith, full, s.count) in
        rw (e, full) (inr (refl, omega (arith, here, length-append old (b ∷ kept bs))))
    | inr room ↦
        let below : length old < N = ground (arith, room, s.count) in
        rw (e, room)
          (subst (λ l. Ending N l (fill_checked N (add a b) bs))
            (append_assoc old (b ∷ []) (kept bs))
            (fill_checked-Ending N bs (add a b) (old ++ b ∷ []) (add-Stored a old b s)
              (omega (arith, below, length-snoc old b))))
  ]
]

empty-Stored : Stored empty_array []
unfolding buffer_size size_loop
empty-Stored = record { count = refl; size = refl; elements = refl }

-- What the users of an array see: the buffers, and their size in bytes.
pub record Shows (a : BufferArray) (bs : List Buffer) : Type 0 where
  pub span : to_span a ≡ bs
  pub size : byte_size a ≡ buffer_size bs

Stored-Shows : (a : BufferArray) (bs : List Buffer) → Stored a bs → Shows a bs
unfolding to_span byte_size
Stored-Shows a bs s = record {
  span = take-of_ge a.n_ a.arr_ (omega (arith, s.count, ap length s.elements)) ∙ s.elements;
  size = s.size;
}

copy-Stored : (a : BufferArray) (bs : List Buffer) → Stored a bs → Stored (copy_array a) bs
unfolding copy_array
copy-Stored a bs s = record {
  count = s.count;
  size = s.size;
  elements = take-of_ge a.n_ a.arr_ (omega (arith, s.count, ap length s.elements)) ∙ s.elements;
}

minus_zero : (n : ℕ) → n - 0 ≡ n
minus_zero n = omega arith

-- The array made from a buffer sequence, and a copy of it, span the first N of its buffers that are
-- not empty, in order, and its size in bytes is what buffer_size counts for these, modulo 2^64.
pub of_sequence-Shows :
    (N : ℕ) (bs : List Buffer)
    → Shows (of_sequence N bs) (take N (kept bs))
      × Shows (copy_array (of_sequence N bs)) (take N (kept bs))
unfolding of_sequence
of_sequence-Shows N bs =
    let s =
      subst (λ k. Stored (fill N empty_array bs) (take k (kept bs))) (minus_zero N)
        (fill-Stored N bs empty_array [] empty-Stored (omega arith)) in
    (Stored-Shows _ _ s, Stored-Shows _ _ (copy-Stored _ _ s))

-- The checked construction of an array throws exactly when the sequence has more than N buffers
-- that are not empty; otherwise the array spans all of these, its size is what buffer_size counts
-- for them, and its bytes are those of the sequence.
pub of_sequence_checked_lem :
    (N : ℕ) (bs : List Buffer)
    → ((a : BufferArray) × (of_sequence_checked N bs ≡ some a)
        × (length (kept bs) ≤ N)
        × Shows a (kept bs)
        × (bytes_of (to_span a) ≡ bytes_of bs))
      ⊎ ((of_sequence_checked N bs ≡ none) × (N < length (kept bs)))
unfolding of_sequence_checked Ending
of_sequence_checked_lem N bs =
    elim (fill_checked-Ending N bs empty_array [] empty-Stored (omega arith)) [
      | inl (a, e, few, s) ↦
          let seen = Stored-Shows a (kept bs) s in
          inl (a, e, few, seen, ap bytes_of seen.span ∙ bytes_of-kept bs)
      | inr over ↦ inr over
    ]
