-- ===== src/Examples/Strand.antt =====
-- A strand with one continuation posted, whose invoker has been posted too.
use capy.Base.{◌≡◌, refl, [], ◌∷◌}
use capy.Exec.Strand.{enqueue, withdraw, abandon_pending}
use capy.Exec.Strand.System.{
  System, start, post, invoker_posted, post_failed, post_failed_again, throws, throws_again,
  destroyed, Reach, begin, then_, posts, starts,
}
use capy.Exec.Strand.Invariant.{Inv, Reach-Inv}
use capy.Exec.Strand.Order.{IsOrdered, Reach-IsOrdered, ids, ran, destroyed_complete}

posted : System
unfolding start post enqueue invoker_posted
posted = invoker_posted (post (post start 7) 8) []

posted-Reach : Reach posted
unfolding posted
posted-Reach = then_ (then_ (then_ begin (posts 7)) (posts 8)) (starts [] [] 7 refl)

Reach-Inv_example : Inv posted
Reach-Inv_example = Reach-Inv posted-Reach

Reach-IsOrdered_example : IsOrdered posted
Reach-IsOrdered_example = Reach-IsOrdered posted-Reach

-- Both attempts to post the invoker throw: 7 goes back to its caller, and 8 is given up.
refused : System
unfolding start post enqueue post_failed post_failed_again withdraw abandon_pending
refused = post_failed_again (post_failed (post (post start 7) 8) 7 []) []

refused-Reach : Reach refused
unfolding refused
refused-Reach =
    then_ (then_ (then_ (then_ begin (posts 7)) (posts 8)) (throws [] [] 7 refl))
      (throws_again [] [] refl)

refused_idle : refused.drivers ≡ []
unfolding refused
refused_idle = refl

destroyed_complete_example :
    (ids (destroyed refused).departed ≡ 7 ∷ 8 ∷ []) × ([] ≡ ran (destroyed refused).departed)
unfolding refused start
destroyed_complete_example = destroyed_complete refused-Reach refused_idle
