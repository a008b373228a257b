-- ===== src/Sync/Event/System.antt =====
-- The coroutines that wait for an event, its users, and their stop tokens, as a step relation. A
-- turn of the destructor's loop may come at any time, which allows more schedules than the code.
use capy.Base.{ℕ, Bool, true, false, ◌≡◌, ◌==◌, if◌then◌else◌}
use capy.Sync.Event.{
  Event, async_event, await_ready, await_suspend, cancel, await_resume, destroy_waiter, begin_set,
  post_next, clear, cancel_next,
}

pub record System : Type 0 where
  pub event : Event
  -- the awaiters that were awaited
  pub seen : ℕ → Bool

abbrev pub saw : (ℕ → Bool) → ℕ → ℕ → Bool
saw f w v = if v == w then true else f v

abbrev pub next : System → Event → System
next s e = record s { event = e }

pub data Step (s : System) : System → Type 0 where
  suspends :
      (w : ℕ) (stop_requested : Bool)
      → await_ready s.event ≡ false
      → s.seen w ≡ false
      → Step s record { event = (await_suspend s.event w stop_requested).0; seen = saw s.seen w }
  stops : (w : ℕ) → (s.event.waiter w).active ≡ true → Step s (next s (cancel s.event w))
  resumes : (w : ℕ) → Step s (next s (await_resume s.event w).0)
  leaves : (w : ℕ) → Step s (next s (destroy_waiter s.event w))
  sets : Step s (next s (begin_set s.event))
  posts : Step s (next s (post_next s.event))
  clears : Step s (next s (clear s.event))
  cancels : Step s (next s (cancel_next s.event))

unfoldable pub start : System
unfolding async_event
start = record { event = async_event; seen = λ _. false }

pub data Reach : System → Type 0 where
  begin : Reach start
  then_ : {s t : System} → Reach s → Step s t → Reach t
