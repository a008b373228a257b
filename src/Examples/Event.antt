-- ===== src/Examples/Event.antt =====
-- Three coroutines wait for an event, and the second is canceled.
use capy.Base.{ℕ, ◌≡◌, refl, false, [], ◌∷◌}
use capy.Sync.Event.{
  async_event, await_ready, await_suspend, modify, cancel, set, begin_set, claim_all, claim_loop,
  turns, post_next, post_first, destroy_event, cancel_next, cancel_first,
}
use capy.Sync.Event.System.{System, start, Reach, begin, then_, suspends, stops, saw, next}
use capy.Sync.Event.Changes.{Sound}
use capy.Sync.Event.Once.{Reach-Sound}
use capy.Sync.Event.Whole.{pending, Woken, set-Woken}
use capy.Sync.Event.End.{Told, destroy_event-Told}

abbrev waits : System → ℕ → System
waits s w = record { event = (await_suspend s.event w false).0; seen = saw s.seen w }

abbrev three : System
three = waits (waits (waits start 1) 2) 3

abbrev stopped : System
stopped = next three (cancel three.event 2)

stopped-Reach : Reach stopped
unfolding start async_event await_ready await_suspend modify
stopped-Reach =
    then_
      (then_ (then_ (then_ begin (suspends 1 false refl refl)) (suspends 2 false refl refl))
        (suspends 3 false refl refl))
      (stops 2 refl)

woken : (set stopped.event).posted ≡ 2 ∷ 1 ∷ 3 ∷ []
unfolding start async_event await_suspend modify cancel set begin_set claim_all claim_loop turns
    post_next post_first
woken = refl

told : (destroy_event stopped.event).posted ≡ 2 ∷ 1 ∷ 3 ∷ []
unfolding start async_event await_suspend modify cancel destroy_event turns cancel_next cancel_first
told = refl

Reach-Sound_example : Sound stopped.event stopped.seen
Reach-Sound_example = Reach-Sound stopped-Reach

set-Woken_example :
    Woken stopped.event (set stopped.event) (pending stopped.event.waiter stopped.event.waiters)
set-Woken_example = set-Woken stopped-Reach

destroy_event-Told_example :
    Told stopped.event
      (destroy_event stopped.event)
      (pending stopped.event.waiter stopped.event.waiters)
destroy_event-Told_example = destroy_event-Told stopped-Reach
