-- ===== src/Sync/Counts.antt =====
-- How often a number stands in a list.
use capy.Base.{
  ℕ, ◌+◌, ◌-◌, ◌≤◌, ◌≡◌, refl, ap, arith, Bool, true, false, List, [], ◌∷◌, ◌++◌, ◌==◌,
  if◌then◌else◌, Bool-cases, inl, inr,
}
use capy.Sync.Mutex.{remove}

abbrev pub flag : Bool → ℕ
flag false = 0
flag true = 1

abbrev pub times : ℕ → List ℕ → ℕ
times w [] = 0
times w (v ∷ vs) = flag (w == v) + times w vs

pub flag_le : (b : Bool) → flag b ≤ 1
flag_le false = omega arith
flag_le true = omega arith

pub times-append : (w : ℕ) (xs ys : List ℕ) → times w (xs ++ ys) ≡ times w xs + times w ys
times-append w [] ys = omega arith
times-append w (x ∷ xs) ys = omega (arith, times-append w xs ys)

pub times-if :
    (w : ℕ) (c : Bool) (xs ys : List ℕ)
    → times w (if c then xs else ys) ≡ (if c then times w xs else times w ys)
times-if w false xs ys = refl
times-if w true xs ys = refl

-- A number that leaves a list may stay in it no longer, and the others stay.
pub times-remove_le : (v w : ℕ) (xs : List ℕ) → times v (remove w xs) ≤ times v xs
times-remove_le v w [] = omega arith
times-remove_le v w (x ∷ xs) =
    rw (times-if v (w == x) xs (x ∷ remove w xs)) (elim (Bool-cases (w == x)) [
      | inl e ↦ rw e (omega arith)
      | inr e ↦ rw e (omega (arith, times-remove_le v w xs))
    ])

pub times-remove_other :
    (v w : ℕ) (xs : List ℕ) → (v == w) ≡ false → times v (remove w xs) ≡ times v xs
times-remove_other v w [] h = refl
times-remove_other v w (x ∷ xs) h =
    rw (times-if v (w == x) xs (x ∷ remove w xs)) (elim (Bool-cases (w == x)) [
      | inl e ↦ let out : (v == x) ≡ false = ground (arith, e, h) in rw (e, out) (omega arith)
      | inr e ↦ rw e (ap (λ n. flag (v == x) + n) (times-remove_other v w xs h))
    ])

pub times-snoc : (v w : ℕ) (xs : List ℕ) → times v (xs ++ w ∷ []) ≡ times v xs + flag (v == w)
times-snoc v w xs = omega (arith, times-append v xs (w ∷ []))

pub times-remove_self : (w : ℕ) (xs : List ℕ) → times w (remove w xs) ≡ times w xs - 1
times-remove_self w [] = refl
times-remove_self w (x ∷ xs) =
    rw (times-if w (w == x) xs (x ∷ remove w xs)) (elim (Bool-cases (w == x)) [
      | inl e ↦ rw e (omega arith)
      | inr e ↦ rw e (omega (arith, times-remove_self w xs))
    ])

pub plus_zero : (n : ℕ) → n + 0 ≡ n
plus_zero n = omega arith

pub zero_plus : (c : Bool) (n : ℕ) → c ≡ false → flag c + n ≡ n
zero_plus c n h = rw h (omega arith)

pub is_it : (u w : ℕ) → u ≡ w → (u == w) ≡ true
is_it u w h = ground (arith, h)
