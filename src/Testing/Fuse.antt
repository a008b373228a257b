-- ===== src/Testing/Fuse.antt =====
-- include/boost/capy/test/fuse.hpp: systematic error injection. A source location is a number, and
-- so is an exception that is not the injected one; the state that `fuse` shares is passed along.
pub mod Armed
use capy.Base.{
  ℕ, ◌+◌, ◌%◌, Bool, true, false, Option, none, some, ltb, ◌==◌, if◌then◌else◌, size_mod, size_max,
  ◌≡◌, refl, inl, inr, Bool-cases,
}
use capy.Error.{ErrorCode, Ec}

pub record Fuse : Type 0 where
  pub n : ℕ
  pub i : ℕ
  pub triggered : Bool
  pub throws : Bool
  pub stopped : Bool
  pub inert : Bool
  pub ec : ErrorCode
  pub loc : ℕ
  pub ep : Option ℕ

-- `fuse(ec)`.
unfoldable pub fuse : ErrorCode → Fuse
fuse ec = record {
  n = size_max;
  i = 0;
  triggered = false;
  throws = false;
  stopped = false;
  inert = true;
  ec = ec;
  loc = 0;
  ep = none;
}

-- `explicit operator bool`: whether there is another round.
unfoldable pub another : Fuse → Fuse × Bool
another s =
    if s.n == size_max
    then (record s { n = 0 }, true)
    else if s.triggered
    then (record s { n = (s.n + 1) % size_mod; i = 0; triggered = false }, true)
    else (s, false)

-- How a call ends: with a value, or with an exception.
pub data Outcome (A : Type 0) : Type 0 where
  returned : A → Outcome A
  thrown : ErrorCode → Outcome A
  thrown_other : ℕ → Outcome A

unfoldable pub maybe_fail : Fuse → ℕ → Fuse × Outcome Ec
maybe_fail s loc =
    let i = if ltb s.i s.n then s.i + 1 else s.i in
    let t = record s { i = i } in
    let hit = record s { i = i; triggered = true; loc = loc } in
    if s.inert
    then (s, returned none)
    else if i == s.n
    then (hit, if s.throws then thrown s.ec else returned (some s.ec))
    else (t, returned none)

-- `fail(loc)` and `fail(ep, loc)`.
unfoldable pub fail : Fuse → Option ℕ → ℕ → Fuse
fail s none loc = record s { loc = loc; stopped = true }
fail s (some ep) loc = record s { ep = some ep; loc = loc; stopped = true }

-- A fuse that injects no exceptions, which is so in the first phase of `armed` and outside it.
pub record Calm (s t : Fuse) (r : Outcome Ec) : Type 0 where
  pub ec : Ec
  pub returns : r ≡ returned ec
  pub throws : t.throws ≡ false

pub maybe_fail-Calm :
    (s : Fuse) (loc : ℕ) → s.throws ≡ false → Calm s (maybe_fail s loc).0 (maybe_fail s loc).1
unfolding maybe_fail
maybe_fail-Calm s loc h = elim (Bool-cases s.inert) [
  | inl idle ↦ rw idle (record { ec = none; returns = refl; throws = h })
  | inr live ↦ rw live (elim (Bool-cases ((if ltb s.i s.n then s.i + 1 else s.i) == s.n)) [
    | inl hit ↦ rw hit (record { ec = some s.ec; returns = rw h refl; throws = h })
    | inr miss ↦ rw miss (record { ec = none; returns = refl; throws = h })
  ])
]
