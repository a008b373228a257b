-- ===== src/Frames/Recycling/Classes.antt =====
-- Size classes: class `i` holds blocks of 64 * 2^i bytes.
use capy.Base.{
  ℕ, zero, suc, ◌+◌, ◌*◌, ◌^◌, ◌<◌, ◌≤◌, ◌≡◌, refl, ap, sym, ◌∙◌, if◌then◌else◌, inl, inr, arith,
  Bool, true, false, ◌&&◌, ◌||◌, ltb, leb, ◌==◌, ◌⊎◌, Bool-cases,
}
use native.Mathlib.Numerals.{unary_clauses}
use capy.Frames.Recycling.{countr_zero, zeros, round_up_pow2, get_class_index, bit_ceil, ceil_from}

abbrev pub class_of : ℕ → ℕ
class_of bytes = get_class_index (round_up_pow2 bytes)

abbrev pub class_size : ℕ → ℕ
class_size i = 64 * 2 ^ i

-- Whether the `left` numbers from `at` on pass a test.
passes : (ℕ → Bool) → ℕ → ℕ → Bool
passes test zero at = true
passes test (suc left) at = let rest = passes test left (at + 1) in if test at then rest else false

passes_lem :
    (test : ℕ → Bool) (left at x : ℕ)
    → at ≤ x
    → x < at + left
    → passes test left at ≡ true
    → test x ≡ true
unfolding passes
passes_lem test zero at x low high h = absurd (omega (arith, low, high))
passes_lem test (suc left) at x low high h = elim (Bool-cases (test at)) [
  | inr fails ↦
      absurd (cc (sym (ap (λ c. if c then passes test left (at + 1) else false) fails), h))
  | inl here ↦ elim (Bool-cases (x == at)) [
    | inl first ↦ let e : x ≡ at = ground (arith, first) in ap test e ∙ here
    | inr later ↦
        let next : at + 1 ≤ x = ground (arith, later, low) in
        let last : x < at + 1 + left = omega (arith, high) in
        passes_lem test left (at + 1) x next last
          (sym (ap (λ c. if c then passes test left (at + 1) else false) here) ∙ h)
  ]
]

-- A class below six, to whose size the request is rounded, and half of which is too small.
abbrev checked : ℕ → ℕ → ℕ → ℕ → Bool
checked n i rounded size =
    ltb i 6 && ((rounded == size) && (leb n size && (i == 0 || ltb size (n * 2))))

fits : ℕ → Bool
fits n = checked n (class_of n) (round_up_pow2 n) (class_size (class_of n))

small_fits : passes fits 2049 0 ≡ true
unfolding passes fits round_up_pow2 get_class_index bit_ceil ceil_from countr_zero zeros
small_fits = refl

powers : passes (λ k. get_class_index (2 ^ k) == 6 || leb (2 ^ k) 2048) 64 0 ≡ true
unfolding passes get_class_index countr_zero zeros
powers = refl

double : (k : ℕ) → 2 ^ k * 2 ≡ 2 ^ suc k
double k = simp unary_clauses refl

leb→le : (a b : ℕ) → leb a b ≡ true → a ≤ b
leb→le a b h = ground (arith, h)

leb→gt : (a b : ℕ) → leb a b ≡ false → b < a
leb→gt a b h = ground (arith, h)

-- The loop of `bit_ceil` ends at a power of two that is large enough.
ceil_from_power :
    (fuel k n : ℕ)
    → fuel + k ≡ 64
    → n ≤ 2 ^ 63
    → 0 < fuel
    → (j : ℕ) × (j < 64) × (ceil_from fuel (2 ^ k) n ≡ 2 ^ j) × (n ≤ 2 ^ j)
unfolding ceil_from
ceil_from_power zero k n f h pos = absurd (omega arith)
ceil_from_power (suc fuel) k n f h pos = elim (Bool-cases (leb n (2 ^ k))) [
  | inl done ↦ (k, omega (arith, f), rw done refl, leb→le n (2 ^ k) done)
  | inr more ↦ elim (Bool-cases (fuel == 0)) [
    | inl last ↦
        let at_end : fuel ≡ 0 = ground (arith, last) in
        let here : k ≡ 63 = omega (arith, f, at_end) in
        let top : 2 ^ k ≡ 2 ^ 63 = ap (λ x. 2 ^ x) here in
        absurd (omega (arith, leb→gt n (2 ^ k) more, h, top))
    | inr left ↦
        let (j, b, e, le) =
          ceil_from_power fuel (suc k) n (omega (arith, f)) h (ground (arith, left)) in
        (j, b, rw (more, double k) e, le)
  ]
]

bit_ceil_power : (n : ℕ) → n ≤ 2 ^ 63 → (j : ℕ) × (j < 64) × (bit_ceil n ≡ 2 ^ j) × (n ≤ 2 ^ j)
unfolding bit_ceil
bit_ceil_power n h = ceil_from_power 64 0 n refl h (omega arith)

large : (bytes : ℕ) → 2048 < bytes → bytes ≤ 2 ^ 63 → get_class_index (round_up_pow2 bytes) ≡ 6
unfolding round_up_pow2
large bytes h top =
    let (j, b, e, le) = bit_ceil_power bytes top in
    let over : leb bytes 64 ≡ false = ground (arith, h) in
    let at =
      passes_lem (λ k. get_class_index (2 ^ k) == 6 || leb (2 ^ k) 2048) 64 0 j (omega arith) b
        powers in
    rw (over, e) (ground (arith, at, h, le))

-- What a size class is to a request.
pub record Fits (bytes idx rounded_up size : ℕ) : Type 0 where
  pub pooled : idx < 6
  pub rounded : rounded_up ≡ size
  pub enough : bytes ≤ size
  pub tight : (idx ≡ 0) ⊎ (size < bytes * 2)

checked-Fits : (n i rounded size : ℕ) → checked n i rounded size ≡ true → Fits n i rounded size
checked-Fits n i rounded size h = record {
  pooled = ground (arith, h);
  rounded = ground (arith, h);
  enough = ground (arith, h);
  tight = ground (arith, h);
}

abbrev pub FitsClass : ℕ → Type 0
FitsClass bytes = Fits bytes (class_of bytes) (round_up_pow2 bytes) (class_size (class_of bytes))

pub small : (bytes : ℕ) → bytes ≤ 2048 → FitsClass bytes
unfolding fits
small bytes h =
    checked-Fits bytes (class_of bytes) (round_up_pow2 bytes) (class_size (class_of bytes))
      (passes_lem fits 2049 0 bytes (omega arith) (omega (arith, h)) small_fits)

-- A request of at most 2^63 bytes that is larger than 2048 is not pooled; any other is rounded up
-- to the size, 64 * 2^i, of a class i below six that holds it, and for i above 0 the size is below
-- twice the request.
pub class_index_lem :
    (bytes : ℕ)
    → bytes ≤ 2 ^ 63
    → ((2048 < bytes) × (class_of bytes ≡ 6)) ⊎ ((bytes ≤ 2048) × FitsClass bytes)
class_index_lem bytes h = elim (Bool-cases (leb bytes 2048)) [
  | inl low ↦ inr (leb→le bytes 2048 low, small bytes (leb→le bytes 2048 low))
  | inr high ↦ inl (leb→gt bytes 2048 high, large bytes (leb→gt bytes 2048 high) h)
]
