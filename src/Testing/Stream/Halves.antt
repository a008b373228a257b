-- ===== src/Testing/Stream/Halves.antt =====
-- The two ends, and one reader among all.
use capy.Base.{ℕ, ◌≡◌, refl, Bool, true, false, not, ◌⊎◌, inl, inr, ◌==◌, if◌then◌else◌, arith}
use capy.Testing.Stream.{Half, Reader, Pair, set_half, set_reader}
use capy.Sync.Counts.{flag}

pub ends : (i j : Bool) → (j ≡ i) ⊎ (j ≡ not i)
ends false false = inl refl
ends false true = inr refl
ends true false = inr refl
ends true true = inl refl

pub set_half_here : (p : Pair) (i : Bool) (h : Half) → (set_half p i h).sides i ≡ h
unfolding set_half
set_half_here p false h = refl
set_half_here p true h = refl

pub set_half_other :
    (p : Pair) (i : Bool) (h : Half) → (set_half p i h).sides (not i) ≡ p.sides (not i)
unfolding set_half
set_half_other p false h = refl
set_half_other p true h = refl

pub not-not : (i : Bool) → not (not i) ≡ i
not-not false = refl
not-not true = refl

pub reader-cases {ℓ} :
    (p : Pair) (w : ℕ) (r : Reader) (v : ℕ) (P : Reader → ℕ → Type ℓ)
    → (v ≡ w → P r 1)
    → ((v == w) ≡ false → P (p.reader v) 0)
    → P ((set_reader p w r).reader v) (flag (v == w))
unfolding set_reader
reader-cases p w r v P h k =
    elim (v == w) as (λ c. (v == w) ≡ c → P (if c then r else p.reader v) (flag c)) [
      | true ↦ λ e. h (ground (arith, e))
      | false ↦ λ e. k e
    ]
      refl
