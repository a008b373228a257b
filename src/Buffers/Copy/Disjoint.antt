-- ===== src/Buffers/Copy/Disjoint.antt =====
-- Addresses of which none stands in two lists.
use capy.Base.{
  Distinct, ℕ, zero, suc, ◌+◌, ◌≤◌, ◌<◌, ◌≡◌, refl, ap, ◌∙◌, sym, false, true, List, [], ◌∷◌, arith,
  take, drop, has, ltb, ◌==◌, ◌||◌, Bool-cases, inl, inr,
}
use capy.Buffers.Bytes.{range}
use capy.Buffers.Copy.{overlap}

-- No address stands in both lists.
abbrev pub Apart : List ℕ → List ℕ → Type 0
Apart xs [] = Unit {0}
Apart xs (y ∷ ys) = (has y xs ≡ false) × Apart xs ys

pub has-take : (a n : ℕ) (xs : List ℕ) → has a xs ≡ false → has a (take n xs) ≡ false
has-take a zero xs h = refl
has-take a (suc n) [] h = refl
has-take a (suc n) (x ∷ xs) h = ground (arith, has-take a n xs)

pub Distinct-take : (n : ℕ) (xs : List ℕ) → Distinct xs → Distinct (take n xs)
Distinct-take zero xs h = tt
Distinct-take (suc n) [] h = tt
Distinct-take (suc n) (x ∷ xs) h = (has-take x n xs h.0, Distinct-take n xs h.1)

pub Apart-take : (n : ℕ) (xs ys : List ℕ) → Apart xs ys → Apart (take n xs) ys
Apart-take n xs [] h = tt
Apart-take n xs (y ∷ ys) h = (has-take y n xs h.0, Apart-take n xs ys h.1)

pub Distinct-drop : (n : ℕ) (xs : List ℕ) → Distinct xs → Distinct (drop n xs)
Distinct-drop zero xs h = h
Distinct-drop (suc n) [] h = tt
Distinct-drop (suc n) (x ∷ xs) h = Distinct-drop n xs h.1

has-drop : (a n : ℕ) (xs : List ℕ) → has a xs ≡ false → has a (drop n xs) ≡ false
has-drop a zero xs h = h
has-drop a (suc n) [] h = refl
has-drop a (suc n) (x ∷ xs) h = has-drop a n xs (ground arith)

pub Apart-drop : (n : ℕ) (xs ys : List ℕ) → Apart xs ys → Apart (drop n xs) ys
Apart-drop n xs [] h = tt
Apart-drop n xs (y ∷ ys) h = (has-drop y n xs h.0, Apart-drop n xs ys h.1)

pub Apart-take_right : (n : ℕ) (xs ys : List ℕ) → Apart xs ys → Apart xs (take n ys)
Apart-take_right zero xs ys h = tt
Apart-take_right (suc n) xs [] h = tt
Apart-take_right (suc n) xs (y ∷ ys) h = (h.0, Apart-take_right n xs ys h.1)

pub Apart-drop_right : (n : ℕ) (xs ys : List ℕ) → Apart xs ys → Apart xs (drop n ys)
Apart-drop_right zero xs ys h = h
Apart-drop_right (suc n) xs [] h = tt
Apart-drop_right (suc n) xs (y ∷ ys) h = Apart-drop_right n xs ys h.1

has-Apart : (a : ℕ) (xs ys : List ℕ) → Apart xs ys → has a xs ≡ true → has a ys ≡ true → ⊥
has-Apart a xs [] h k l = cc l
has-Apart a xs (y ∷ ys) h k l = elim (Bool-cases (a == y)) [
  | inl e ↦ let eq : a ≡ y = ground (arith, e) in cc (ap (λ x. has x xs) eq, k, h.0)
  | inr e ↦ has-Apart a xs ys h.1 k (sym (ap (λ b. b || has a ys) e) ∙ l)
]

has-range : (a n x : ℕ) → a ≤ x → x < a + n → has x (range a n) ≡ true
has-range a zero x h k = absurd (omega (arith, h, k))
has-range a (suc n) x h k = elim (Bool-cases (x == a)) [
  | inl e ↦ ap (λ b. b || has x (range (suc a) n)) e
  | inr e ↦
      ap (λ b. b || has x (range (suc a) n)) e
      ∙ has-range (suc a) n x (ground (arith, h, e)) (omega (arith, k))
]

-- Objects that have no byte in common do not overlap.
pub overlap-Apart : (n a b : ℕ) → Apart (range a n) (range b n) → overlap n a b ≡ false
overlap-Apart n a b h = elim (Bool-cases (overlap n a b)) [
  | inr e ↦ e
  | inl e ↦
      let below : a < b + n = ground (arith, e) in
      let above : b < a + n = ground (arith, e) in
      elim (Bool-cases (ltb a b)) [
        | inl less ↦ absurd (
            has-Apart b (range a n) (range b n) h (has-range a n b (ground (arith, less)) above)
              (has-range b n b (omega arith) (ground (arith, above, less, below))))
        | inr more ↦ absurd (
            has-Apart a (range a n) (range b n) h
              (has-range a n a (omega arith) (ground (arith, above, more)))
              (has-range b n a (ground (arith, more)) below))
      ]
]
