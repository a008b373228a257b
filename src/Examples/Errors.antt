-- ===== src/Examples/Errors.antt =====
-- Comparisons on a platform whose code 125 is `operation_canceled`, and whose code 9 is an end of
-- stream to its category.
use capy.Base.{ℕ, ◌≡◌, refl, Bool, true, false, ◌==◌, ◌&&◌}
use capy.Error.{Cond, Errc, other}
use capy.Error.Conditions.{Condition, portable, generic_condition, same_condition, compares}
use capy.Error.Conditions.Compare.{stands_for, compares-stands_for}

abbrev platform : ℕ → Condition → Bool
platform n (generic_condition e) =
    (n == 125) && same_condition (generic_condition Errc.operation_canceled) (generic_condition e)
platform n (portable c) = (n == 9) && same_condition (portable Cond.eof) (portable c)
platform n c = false

canceled_here : compares platform (other 125) Cond.canceled ≡ true
unfolding compares same_condition
canceled_here = refl

ended_here : compares platform (other 9) Cond.eof ≡ true
unfolding compares same_condition
ended_here = refl

compares-stands_for_example :
    compares platform (other 9) Cond.eof ≡ stands_for platform (other 9) Cond.eof
compares-stands_for_example = compares-stands_for platform (other 9) Cond.eof
