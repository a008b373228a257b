-- ===== src/Buffers/Copy/Refine.antt =====
-- `buffer_copy` refines a copy byte by byte over the two lists of addresses, for any layout in
-- buffers of two sequences that have no byte in common.
use capy.Base.{
  ℕ, zero, suc, ◌+◌, ◌-◌, ◌≤◌, ◌<◌, min, ◌≡◌, refl, sym, ap, ap₂, ◌∙◌, ◌⊎◌, inl, inr, true, none,
  subst, if◌then◌else◌, List, [], ◌∷◌, ◌++◌, some, arith, ltb, ◌==◌, Bool-cases, length, take, drop,
  drop-append_le, drop-append_ge, take-append_le, drop-drop, drop-nil, take-nil, length-drop,
  Option,
}
use capy.Buffers.{Buffer, advance}
use capy.Buffers.Bytes.{
  range, bytes, bytes_of, length-range, take-range, bytes-advance, length-bytes_of_cons, Inside,
  Inside-zero,
}
use capy.Buffers.Copy.Disjoint.{
  Apart, Apart-take, Apart-take_right, Apart-drop, Apart-drop_right, overlap-Apart,
}
use capy.Buffers.Copy.{
  Memory, store, move_bytes, memcpy, after_copy, copy_amount, Cursor, step_cursor, copy_loop,
  buffer_copy,
}

-- Copies byte after byte until either list ends.
unfoldable pub byte_copy : Memory → List ℕ → List ℕ → Memory
byte_copy m [] ss = m
byte_copy m (d ∷ ds) [] = m
byte_copy m (d ∷ ds) (s ∷ ss) = byte_copy (store m d (m s)) ds ss

move_bytes-byte_copy :
    (m : Memory) (d s n : ℕ) → move_bytes m d s n ≡ byte_copy m (range d n) (range s n)
unfolding move_bytes byte_copy
move_bytes-byte_copy m d s zero = refl
move_bytes-byte_copy m d s (suc n) = move_bytes-byte_copy (store m d (m s)) (suc d) (suc s) n

byte_copy_split :
    (m : Memory) (n k : ℕ) (ds ss : List ℕ)
    → n ≤ k
    → n ≤ length ds
    → n ≤ length ss
    → byte_copy (byte_copy m (take n ds) (take n ss)) (take (k - n) (drop n ds)) (drop n ss)
      ≡ byte_copy m (take k ds) ss
unfolding byte_copy
byte_copy_split m zero k ds ss h hd hs = ap (λ j. byte_copy m (take j ds) ss) (omega arith)
byte_copy_split m (suc n) zero ds ss h hd hs = absurd (omega arith)
byte_copy_split m (suc n) (suc k) [] ss h hd hs = absurd (omega arith)
byte_copy_split m (suc n) (suc k) (d ∷ ds) [] h hd hs = absurd (omega arith)
byte_copy_split m (suc n) (suc k) (d ∷ ds) (s ∷ ss) h hd hs =
    ap
      (λ j.
        byte_copy (byte_copy (store m d (m s)) (take n ds) (take n ss)) (take j (drop n ds))
          (drop n ss))
      {x = suc k - suc n} {y = k - n} (omega arith)
    ∙ byte_copy_split (store m d (m s)) n k ds ss (omega arith) (omega arith) (omega arith)

size-advance : (b : Buffer) (n : ℕ) → n ≤ b.size → (advance b n).size ≡ b.size - n
unfolding advance
size-advance b n h = ground arith

-- The part of a buffer behind `pos`, as a prefix of what is left of its sequence.
range-drop :
    (b : Buffer) (bs : List Buffer) (pos n : ℕ)
    → pos ≤ b.size
    → n ≤ (advance b pos).size
    → range (advance b pos).data_ n ≡ take n (drop pos (bytes_of (b ∷ bs)))
range-drop b bs pos n h le =
    sym (take-range n (advance b pos).data_ (advance b pos).size le)
    ∙ sym (
        take-append_le n (bytes (advance b pos)) (bytes_of bs)
          (omega (arith, length-range (advance b pos).data_ (advance b pos).size)))
    ∙ ap (take n) (
        ap (λ l. l ++ bytes_of bs) (bytes-advance b pos)
        ∙ sym (
            drop-append_le pos (bytes b) (bytes_of bs)
              (omega (arith, length-range b.data_ b.size))))

abbrev view : Cursor → List ℕ
view c = drop c.pos (bytes_of c.rest)

-- What one round does to a position.
record Stepped (c : Cursor) (b : Buffer) (bs : List Buffer) (pos amount : ℕ) : Type 0 where
  left : view c ≡ drop amount (drop pos (bytes_of (b ∷ bs)))
  inside : Inside c.rest c.pos
  shrinks : length c.rest ≤ suc (length bs)
  finishes : amount ≡ (advance b pos).size → length c.rest ≡ length bs

step_cursor-Stepped :
    (b : Buffer) (bs : List Buffer) (pos amount : ℕ)
    → pos ≤ b.size
    → amount ≤ (advance b pos).size
    → Stepped (step_cursor amount (advance b pos).size pos (b ∷ bs) bs) b bs pos amount
unfolding step_cursor
step_cursor-Stepped b bs pos amount h le =
    let whole = size-advance b pos h in
    let len = length-range b.data_ b.size in
    elim (Bool-cases (amount == (advance b pos).size)) [
      | inl done ↦
          let e : amount ≡ (advance b pos).size = ground arith in
          rw done (record {
            left = sym (
                drop-drop amount pos (bytes_of (b ∷ bs))
                ∙ drop-append_ge (pos + amount) (bytes b) (bytes_of bs) (omega arith)
                ∙ ap (λ k. drop k (bytes_of bs)) {y = 0} (omega arith));
            inside = Inside-zero bs;
            shrinks = omega arith;
            finishes = λ _. refl;
          })
      | inr more ↦ rw more (record {
        left = sym (drop-drop amount pos (bytes_of (b ∷ bs)));
        inside = omega arith;
        shrinks = omega arith;
        finishes = λ e. absurd (ground arith);
      })
    ]

copy_amount-min : (a b c : ℕ) → copy_amount a b c ≡ min (min a b) c
unfolding copy_amount
copy_amount-min a b c = ground arith

-- A round that leaves room for more has finished a buffer.
abbrev Enough : ℕ → ℕ → ℕ → ℕ → Type 0
Enough fuel at_most total n = (0 < fuel) × ((at_most ≤ total) ⊎ (n < fuel))

abbrev copied_result : Memory → ℕ → ℕ → List ℕ → List ℕ → Option (Memory × ℕ)
copied_result m at_most total ss ds = some (
  byte_copy m (take (at_most - total) ds) ss,
  total + min (min (length ss) (length ds)) (at_most - total),
)

byte_copy_zero : (m : Memory) (k : ℕ) (ds ss : List ℕ) → k ≡ 0 → byte_copy m (take k ds) ss ≡ m
unfolding byte_copy
byte_copy_zero m k ds ss h = rw h refl

byte_copy_nil : (m : Memory) (ds : List ℕ) → byte_copy m ds [] ≡ m
unfolding byte_copy
byte_copy_nil m [] = refl
byte_copy_nil m (d ∷ ds) = refl

-- One round and the copy of what it leaves make up the whole copy.
copy_round :
    (m : Memory) (at_most total amount : ℕ) (s d : Buffer) (ss ds : List Buffer) (p0 p1 : ℕ)
    → (c0 c1 : Cursor) → p0 ≤ s.size
    → p1 ≤ d.size
    → amount ≤ (advance s p0).size
    → amount ≤ (advance d p1).size
    → amount ≤ at_most - total
    → Stepped c0 s ss p0 amount
    → Stepped c1 d ds p1 amount
    → copied_result
        (move_bytes m (advance d p1).data_ (advance s p0).data_ amount)
        at_most
        (total + amount)
        (view c0)
        (view c1)
      ≡ copied_result m at_most total (drop p0 (bytes_of (s ∷ ss))) (drop p1 (bytes_of (d ∷ ds)))
copy_round m at_most total amount s d ss ds p0 p1 c0 c1 hs hd us ud left v0 v1 =
    let S = drop p0 (bytes_of (s ∷ ss)) in
    let D = drop p1 (bytes_of (d ∷ ds)) in
    let ls : amount ≤ length S = omega (
      arith,
      length-drop p0 (bytes_of (s ∷ ss)),
      length-bytes_of_cons s ss,
      size-advance s p0 hs,
    ) in
    let ld : amount ≤ length D = omega (
      arith,
      length-drop p1 (bytes_of (d ∷ ds)),
      length-bytes_of_cons d ds,
      size-advance d p1 hd,
    ) in
    let moved : move_bytes m (advance d p1).data_ (advance s p0).data_ amount
        ≡ byte_copy m (take amount D) (take amount S) =
      move_bytes-byte_copy m (advance d p1).data_ (advance s p0).data_ amount
      ∙ ap₂ (byte_copy m) (range-drop d ds p1 amount hd ud) (range-drop s ss p0 amount hs us) in
    ap₂ (λ (x : Memory) (y : ℕ). some (x, y))
      (ap₂
          (λ x y.
            byte_copy (move_bytes m (advance d p1).data_ (advance s p0).data_ amount)
              (take (at_most - (total + amount)) x) y)
          v1.left v0.left
        ∙ ap₂ (λ x j. byte_copy x (take j (drop amount D)) (drop amount S)) moved (omega arith)
        ∙ byte_copy_split m amount (at_most - total) D S left ld ls)
      (omega
        (arith, ap length v0.left, ap length v1.left, length-drop amount S, length-drop amount D))

Enough-next :
    (fuel at_most total amount n0 n1 ls ld l0 l1 : ℕ)
    → amount ≡ min (min n0 n1) (at_most - total)
    → Enough (suc fuel) at_most total (suc ls + suc ld)
    → ltb total at_most ≡ true
    → l0 ≤ suc ls
    → l1 ≤ suc ld
    → (amount ≡ n0 → l0 ≡ ls)
    → (amount ≡ n1 → l1 ≡ ld)
    → Enough fuel at_most (total + amount) (l0 + l1)
Enough-next fuel at_most total amount n0 n1 ls ld l0 l1 e h more s0 s1 f0 f1 =
    (ground arith, ground arith)

-- The copy of a round is defined where the sequences have no byte in common.
memcpy_lem :
    (m : Memory) (s d : Buffer) (ss ds : List Buffer) (p0 p1 amount : ℕ)
    → p0 ≤ s.size
    → p1 ≤ d.size
    → amount ≤ (advance s p0).size
    → amount ≤ (advance d p1).size
    → Apart (drop p1 (bytes_of (d ∷ ds))) (drop p0 (bytes_of (s ∷ ss)))
    → memcpy m (advance d p1).data_ (advance s p0).data_ amount
      ≡ some (move_bytes m (advance d p1).data_ (advance s p0).data_ amount)
unfolding memcpy
memcpy_lem m s d ss ds p0 p1 amount hs hd us ud apart =
    let D = drop p1 (bytes_of (d ∷ ds)) in
    let S = drop p0 (bytes_of (s ∷ ss)) in
    let near : Apart (take amount D) (take amount S) =
      Apart-take amount D (take amount S) (Apart-take_right amount D S apart) in
    let far : Apart (range (advance d p1).data_ amount) (range (advance s p0).data_ amount) =
      subst (λ l. Apart l (range (advance s p0).data_ amount))
        (sym (range-drop d ds p1 amount hd ud))
        (subst (Apart (take amount D)) (sym (range-drop s ss p0 amount hs us)) near) in
    ap
      (λ c.
        if c then none else some (move_bytes m (advance d p1).data_ (advance s p0).data_ amount))
      (overlap-Apart amount (advance d p1).data_ (advance s p0).data_ far)

copy_loop-copied_result :
    (fuel : ℕ) (m : Memory) (at_most total : ℕ) (src : List Buffer) (p0 : ℕ) (dest : List Buffer)
    → (p1 : ℕ) → total ≤ at_most
    → Inside src p0
    → Inside dest p1
    → Enough fuel at_most total (length src + length dest)
    → Apart (drop p1 (bytes_of dest)) (drop p0 (bytes_of src))
    → copy_loop fuel at_most total
        (record { rest = src; pos = p0 })
        (record { rest = dest; pos = p1 })
        m
      ≡ copied_result m at_most total (drop p0 (bytes_of src)) (drop p1 (bytes_of dest))
unfolding copy_loop byte_copy
copy_loop-copied_result zero m at_most total src p0 dest p1 h i0 i1 enough apart =
    absurd (omega arith)
copy_loop-copied_result (suc fuel) m at_most total [] p0 dest p1 h i0 i1 enough apart =
    rw (drop-nil p0, byte_copy_nil) (ap (λ (y : ℕ). some (m, y)) (omega arith))
copy_loop-copied_result (suc fuel) m at_most total (s ∷ ss) p0 [] p1 h i0 i1 enough apart =
    rw (drop-nil p1, take-nil) (ap (λ (y : ℕ). some (m, y)) (omega arith))
copy_loop-copied_result (suc fuel) m at_most total (s ∷ ss) p0 (d ∷ ds) p1 h i0 i1 enough apart =
    let b0 = advance s p0 in
    let b1 = advance d p1 in
    let amount = copy_amount b0.size b1.size (at_most - total) in
    let e = copy_amount-min b0.size b1.size (at_most - total) in
    elim (Bool-cases (ltb total at_most)) [
      | inl more ↦
          let v0 = step_cursor-Stepped s ss p0 amount i0 (omega arith) in
          let v1 = step_cursor-Stepped d ds p1 amount i1 (omega arith) in
          let c0 = step_cursor amount b0.size p0 (s ∷ ss) ss in
          let c1 = step_cursor amount b1.size p1 (d ∷ ds) ds in
          let left : Apart (view c1) (view c0) =
            subst (λ l. Apart l (view c0)) (sym v1.left)
              (subst (Apart (drop amount (drop p1 (bytes_of (d ∷ ds))))) (sym v0.left)
                (Apart-drop amount _ _ (Apart-drop_right amount _ _ apart))) in
          rw more (
            ap (after_copy (copy_loop fuel at_most (total + amount) c0 c1))
              (memcpy_lem m s d ss ds p0 p1 amount i0 i1 (omega arith) (omega arith) apart)
            ∙ copy_loop-copied_result fuel (move_bytes m b1.data_ b0.data_ amount) at_most
                (total + amount) c0.rest c0.pos c1.rest c1.pos (omega arith) v0.inside v1.inside
                (Enough-next fuel at_most total amount b0.size b1.size (length ss) (length ds)
                  (length c0.rest) (length c1.rest) e enough more v0.shrinks v1.shrinks v0.finishes
                  v1.finishes)
                left
            ∙ copy_round m at_most total amount s d ss ds p0 p1 c0 c1 i0 i1 (omega arith)
                (omega arith) (omega arith) v0 v1)
      | inr stop ↦ rw stop (
          ap₂ (λ (x : Memory) (y : ℕ). some (x, y))
            (sym (byte_copy_zero m (at_most - total) _ _ (ground arith))) (ground arith))
    ]

-- Where no byte of the destination belongs to the source, so that every memcpy is defined,
-- buffer_copy returns; for any layout of the two sequences in buffers it copies byte after byte to
-- the first at_most bytes of the destination, and returns min(size(dest), size(src), at_most).
pub buffer_copy-byte_copy :
    (m : Memory) (dest src : List Buffer) (at_most : ℕ)
    → Apart (bytes_of dest) (bytes_of src)
    → buffer_copy m dest src at_most
      ≡ some (
        byte_copy m (take at_most (bytes_of dest)) (bytes_of src),
        min (min (length (bytes_of src)) (length (bytes_of dest))) at_most,
      )
unfolding buffer_copy after_copy
buffer_copy-byte_copy m dest src at_most apart =
    copy_loop-copied_result (length src + length dest + 1) m at_most 0 src 0 dest 0 (omega arith)
      (Inside-zero src) (Inside-zero dest) (omega arith, inr (omega arith)) apart
    ∙ ap₂ (λ (j y : ℕ). some (byte_copy m (take j (bytes_of dest)) (bytes_of src), y)) (omega arith)
        (omega arith)
