-- ===== src/Sync/Event.antt =====
-- include/boost/capy/ex/async_event.hpp. An awaiter is a number; what the event, its awaiters and the
-- calls of `set` that are under way hold is one state.
pub mod Claims
pub mod System
pub mod Turns
pub mod Changes
pub mod Once
pub mod Whole
pub mod End
use capy.Base.{
  ℕ, zero, suc, Bool, true, false, not, List, [], ◌∷◌, ◌++◌, ◌==◌, if◌then◌else◌, length,
}
use capy.Sync.Mutex.{remove}

-- The members of `wait_awaiter`: `active` says that its stop callback is registered, `linked` that it
-- stands in a list.
pub record Waiter : Type 0 where
  pub claimed : Bool
  pub canceled : Bool
  pub active : Bool
  pub linked : Bool

abbrev pub new_waiter : Waiter
new_waiter = record { claimed = false; canceled = false; active = false; linked = false }

pub record Event : Type 0 where
  pub set_ : Bool
  pub waiters : List ℕ
  -- who was claimed by `set` and is not posted yet; a call from within another comes first
  pub taken : List ℕ
  pub waiter : ℕ → Waiter
  -- the continuations posted to executors, in order
  pub posted : List ℕ

unfoldable pub async_event : Event
async_event = record {
  set_ = false;
  waiters = [];
  taken = [];
  waiter = λ _. new_waiter;
  posted = [];
}

unfoldable pub modify : (ℕ → Waiter) → ℕ → (Waiter → Waiter) → ℕ → Waiter
modify f w g v = if v == w then g (f v) else f v

-- `wait_awaiter::await_ready`, and `is_set`.
unfoldable pub await_ready : Event → Bool
await_ready e = e.set_

abbrev pub refused : Waiter → Waiter
refused a = record a { canceled = true }

abbrev pub enlisted : Waiter → Waiter
enlisted a = record a { linked = true; active = true }

-- `wait_awaiter::await_suspend`; the result says whether the coroutine stays suspended.
unfoldable pub await_suspend : Event → ℕ → Bool → Event × Bool
await_suspend e w stop_requested =
    if stop_requested
    then (record e { waiter = modify e.waiter w refused }, false)
    else (record e { waiters = e.waiters ++ w ∷ []; waiter = modify e.waiter w enlisted }, true)

abbrev pub claim_canceled : Waiter → Waiter
claim_canceled a = record a { claimed = true; canceled = true }

-- `cancel_fn`: the stop callback.
unfoldable pub cancel : Event → ℕ → Event
cancel e w =
    if (e.waiter w).claimed
    then e
    else record e { waiter = modify e.waiter w claim_canceled; posted = e.posted ++ w ∷ [] }

-- An awaiter leaves the list that it stands in.
unfoldable pub unlink : Event → ℕ → Event
unlink e w = record e {
  waiters = remove w e.waiters;
  taken = remove w e.taken;
  waiter = modify e.waiter w (λ a. record a { active = false; linked = false });
}

abbrev pub disarm : Waiter → Waiter
disarm a = record a { active = false }

-- `wait_awaiter::await_resume`; the result says whether the event was set.
unfoldable pub await_resume : Event → ℕ → Event × Bool
unfolding unlink
await_resume e w = (
  if (e.waiter w).canceled
      then (if (e.waiter w).linked
          then unlink e w
          else record e { waiter = modify e.waiter w disarm })
      else record e { waiter = modify e.waiter w disarm },
  not (e.waiter w).canceled,
)

-- `~wait_awaiter`.
unfoldable pub destroy_waiter : Event → ℕ → Event
unfolding unlink
destroy_waiter e w =
    if (e.waiter w).linked then unlink e w else record e { waiter = modify e.waiter w disarm }

-- `claimed_.exchange(true)`, and whether `set` keeps the awaiter in its own list.
abbrev pub claim : Waiter → Waiter
claim a = record a { claimed = true; linked = not a.claimed }

-- `claim_all`, the loop over the waiters: who is claimed already is skipped.
unfoldable pub claim_loop : (ℕ → Waiter) → List ℕ → (ℕ → Waiter) × List ℕ
claim_loop f [] = (f, [])
claim_loop f (w ∷ ws) =
    let (g, into) = claim_loop (modify f w claim) ws in
    (g, if (f w).claimed then into else w ∷ into)

unfoldable pub claim_all : Event → Event
claim_all e =
    let (f, into) = claim_loop e.waiter e.waiters in
    record e { waiters = []; taken = into ++ e.taken; waiter = f }

-- `set` up to its loop of posts.
unfoldable pub begin_set : Event → Event
unfolding claim_all
begin_set e = claim_all (record e { set_ = true })

abbrev pub unlinked : Waiter → Waiter
unlinked a = record a { linked = false }

-- The awaiter leaves the list of `set` and is posted.
unfoldable pub post_first : Event → List ℕ → Event
post_first e [] = e
post_first e (w ∷ ws) = record e {
  taken = ws;
  waiter = modify e.waiter w unlinked;
  posted = e.posted ++ w ∷ [];
}

-- One turn of the loop in `set`.
unfoldable pub post_next : Event → Event
unfolding post_first
post_next e = post_first e e.taken

unfoldable pub clear : Event → Event
clear e = record e { set_ = false }

abbrev pub end_claim : Waiter → Waiter
end_claim a = record a {
  linked = false;
  claimed = true;
  canceled = if a.claimed then a.canceled else true;
}

unfoldable pub cancel_first : Event → List ℕ → Event
cancel_first e [] = e
cancel_first e (w ∷ ws) = record e {
  waiters = ws;
  waiter = modify e.waiter w end_claim;
  posted = if (e.waiter w).claimed then e.posted else e.posted ++ w ∷ [];
}

-- One turn of the loop in `~async_event`.
unfoldable pub cancel_next : Event → Event
unfolding cancel_first
cancel_next e = cancel_first e e.waiters

unfoldable pub turns : ℕ → (Event → Event) → Event → Event
turns zero step e = e
turns (suc n) step e = turns n step (step e)

-- A call of `set` with nothing in between.
unfoldable pub set : Event → Event
unfolding turns
set e = turns (length (claim_loop e.waiter e.waiters).1) post_next (begin_set e)

-- `~async_event` with nothing in between.
unfoldable pub destroy_event : Event → Event
unfolding turns
destroy_event e = turns (length e.waiters) cancel_next e
