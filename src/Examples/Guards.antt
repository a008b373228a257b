-- ===== src/Examples/Guards.antt =====
-- A work guard is copied and moved from, and one of the three is reset.
use capy.Base.{◌≡◌, refl, true, false, [], ◌∷◌}
use capy.Exec.Guard.{Guards, work_guard, copy, move, reset}
use capy.Exec.Guard.Balance.{
  no_guards, begin, then_, guards, copies, moves, resets, IsBalanced, Reach-IsBalanced,
}

abbrev after : Guards
after = reset (move (copy (work_guard no_guards) 0) 0) 1

after_test : after ≡ record { owns_ = false ∷ false ∷ true ∷ []; started = 2; finished = 1 }
unfolding work_guard copy move reset
after_test = refl

Reach-IsBalanced_example : IsBalanced after
Reach-IsBalanced_example =
    Reach-IsBalanced (then_ (then_ (then_ (then_ begin guards) (copies 0)) (moves 0)) (resets 1))
