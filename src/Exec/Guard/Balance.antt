-- ===== src/Exec/Guard/Balance.antt =====
-- The operations on the guards as a step relation, and the work that the guards own.
use capy.Base.{
  ℕ, zero, suc, ◌+◌, ◌≡◌, refl, ap, arith, Bool, true, false, List, [], ◌∷◌, ◌++◌, if◌then◌else◌,
  Bool-cases, inl, inr,
}
use capy.Exec.Guard.{Guards, owns_work, disown, leave, work_guard, copy, move, destroy_guard, reset}

pub data Step (g : Guards) : Guards → Type 0 where
  guards : Step g (work_guard g)
  copies : (i : ℕ) → Step g (copy g i)
  moves : (i : ℕ) → Step g (move g i)
  destroys : (i : ℕ) → Step g (destroy_guard g i)
  resets : (i : ℕ) → Step g (reset g i)

abbrev pub no_guards : Guards
no_guards = record { owns_ = []; started = 0; finished = 0 }

pub data Reach : Guards → Type 0 where
  begin : Reach no_guards
  then_ : {g h : Guards} → Reach g → Step g h → Reach h

abbrev one_if : Bool → ℕ
one_if false = 0
one_if true = 1

-- The guards that own work.
abbrev pub owners : List Bool → ℕ
owners [] = 0
owners (b ∷ bs) = one_if b + owners bs

owners-append : (bs cs : List Bool) → owners (bs ++ cs) ≡ owners bs + owners cs
owners-append [] cs = omega arith
owners-append (b ∷ bs) cs = omega (arith, owners-append bs cs)

owners-disown :
    (i : ℕ) (bs : List Bool) → owners bs ≡ owners (disown i bs) + one_if (owns_work i bs)
owners-disown i [] = refl
owners-disown zero (b ∷ bs) = omega arith
owners-disown (suc i) (b ∷ bs) = omega (arith, owners-disown i bs)

owners-leave : (i : ℕ) (bs : List Bool) → owners bs ≡ owners (leave i bs) + one_if (owns_work i bs)
owners-leave i [] = refl
owners-leave zero (b ∷ bs) = omega arith
owners-leave (suc i) (b ∷ bs) = omega (arith, owners-leave i bs)

counted : (b : Bool) (n : ℕ) → (if b then n + 1 else n) ≡ n + one_if b
counted true n = refl
counted false n = omega arith

abbrev pub IsBalanced : Guards → Type 0
IsBalanced g = g.started ≡ g.finished + owners g.owns_

reset-IsBalanced : (g : Guards) (i : ℕ) → IsBalanced g → IsBalanced (reset g i)
unfolding reset
reset-IsBalanced g i h = elim (Bool-cases (owns_work i g.owns_)) [
  | inl e ↦ rw e (omega (arith, h, owners-disown i g.owns_, ap one_if e))
  | inr e ↦ rw e h
]

Step-IsBalanced : {g g' : Guards} → Step g g' → IsBalanced g → IsBalanced g'
unfolding work_guard copy move destroy_guard
Step-IsBalanced {g} guards h = omega (arith, h, owners-append g.owns_ (true ∷ []))
Step-IsBalanced {g} (copies i) h =
    let b = owns_work i g.owns_ in
    omega (arith, h, counted b g.started, owners-append g.owns_ (b ∷ []))
Step-IsBalanced {g} (moves i) h =
    let b = owns_work i g.owns_ in
    omega (arith, h, owners-append (disown i g.owns_) (b ∷ []), owners-disown i g.owns_)
Step-IsBalanced {g} (destroys i) h =
    omega (arith, h, counted (owns_work i g.owns_) g.finished, owners-leave i g.owns_)
Step-IsBalanced {g} (resets i) h = reset-IsBalanced g i h

-- Whatever is done with the guards of an executor, by construction, copy, move, destruction and
-- reset in any order, the calls of on_work_started are as many as those of on_work_finished and the
-- guards that own work together.
pub Reach-IsBalanced : {g : Guards} → Reach g → IsBalanced g
Reach-IsBalanced begin = refl
Reach-IsBalanced (then_ reach step) = Step-IsBalanced step (Reach-IsBalanced reach)
