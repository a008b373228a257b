-- ===== src/Sync/Mutex.antt =====
-- include/boost/capy/ex/async_mutex.hpp. An awaiter is a number; what the mutex and its awaiters
-- hold is one state. What `post` does with a continuation is the executor's, a parameter.
pub mod Unlock
pub mod Destroy
pub mod System
pub mod Turns
pub mod Grants
pub mod Rounds
pub mod Calls
pub mod Exclusion
use capy.Base.{
  ℕ, zero, suc, Bool, true, false, not, ◌&&◌, List, [], ◌∷◌, ◌++◌, Option, none, some, ◌==◌,
  if◌then◌else◌, length,
}

-- The members of `lock_awaiter`; `active` says that its stop callback is registered.
pub record Awaiter : Type 0 where
  pub claimed : Bool
  pub canceled : Bool
  pub active : Bool
  pub granted : Bool
  pub in_list : Bool

abbrev pub new_awaiter : Awaiter
new_awaiter = record {
  claimed = false;
  canceled = false;
  active = false;
  granted = false;
  in_list = false;
}

pub record Mutex : Type 0 where
  pub locked : Bool
  pub waiters : List ℕ
  pub granted_to : Option ℕ
  pub awaiter : ℕ → Awaiter
  -- the continuations posted to executors, in order
  pub posted : List ℕ

unfoldable pub async_mutex : Mutex
async_mutex = record {
  locked = false;
  waiters = [];
  granted_to = none;
  awaiter = λ _. new_awaiter;
  posted = [];
}

unfoldable pub update : (ℕ → Awaiter) → ℕ → Awaiter → ℕ → Awaiter
update f w a v = if v == w then a else f v

abbrev pub remove : ℕ → List ℕ → List ℕ
remove w [] = []
remove w (v ∷ vs) = if w == v then vs else v ∷ remove w vs

-- `lock_awaiter::await_ready`: takes a free lock.
unfoldable pub await_ready : Mutex → Mutex × Bool
await_ready m = if m.locked then (m, false) else (record m { locked = true }, true)

-- `lock_awaiter::await_suspend`; the result says whether the coroutine stays suspended.
unfoldable pub await_suspend : Mutex → ℕ → Bool → Mutex × Bool
await_suspend m w stop_requested =
    let a = m.awaiter w in
    if stop_requested
    then (record m { awaiter = update m.awaiter w (record a { canceled = true }) }, false)
    else (
      record m {
        waiters = m.waiters ++ w ∷ [];
        awaiter = update m.awaiter w (record a { in_list = true; active = true });
      },
      true,
    )

-- `cancel_fn`: the stop callback.
unfoldable pub cancel : Mutex → ℕ → Mutex
cancel m w =
    let a = m.awaiter w in
    if a.claimed then m else record m {
      awaiter = update m.awaiter w (record a { claimed = true; canceled = true });
      posted = m.posted ++ w ∷ [];
    }

-- `lock_awaiter::await_resume`; the result says whether the lock is held.
unfoldable pub await_resume : Mutex → ℕ → Mutex × Bool
await_resume m w =
    let a = m.awaiter w in
    let given = if a.granted then none else m.granted_to in
    let unlink = a.active && (a.canceled && a.in_list) in
    (
      record m {
        granted_to = given;
        waiters = if unlink then remove w m.waiters else m.waiters;
        awaiter = update m.awaiter w (record a {
          granted = false;
          active = false;
          in_list = if unlink then false else a.in_list;
        });
      },
      not a.canceled,
    )

-- `grant_next`, the loop over the queue: who is claimed already is skipped.
unfoldable pub grant_loop : (ℕ → Awaiter) → List ℕ → (ℕ → Awaiter) × List ℕ × Option ℕ
grant_loop f [] = (f, [], none)
grant_loop f (w ∷ ws) =
    let skipped = grant_loop (update f w (record (f w) { in_list = false })) ws in
    if (f w).claimed
    then skipped
    else (update f w (record (f w) { in_list = false; claimed = true; granted = true }), ws, some w)

-- What `grant_next` makes of the loop's outcome.
unfoldable pub grant_done : Mutex → (ℕ → Awaiter) × List ℕ × Option ℕ → Mutex × Option ℕ
grant_done m (f, ws, none) = (record m { awaiter = f; waiters = ws; locked = false }, none)
grant_done m (f, ws, some w) = (record m { awaiter = f; waiters = ws; granted_to = some w }, some w)

unfoldable pub grant_next : Mutex → Mutex × Option ℕ
unfolding grant_loop grant_done
grant_next m = grant_done m (grant_loop m.awaiter m.waiters)

-- What an executor does with a continuation that it is given: keeps it, destroys the coroutine on
-- the spot, or so destroys what owns the mutex.
pub data Fate : Type 0 where
  kept destroyed mutex_gone : Fate

pub data Unlocked : Type 0 where
  done : Mutex → Unlocked
  gone : Unlocked
  out_of_fuel : Unlocked

-- `~lock_awaiter` of a granted awaiter, up to its call of `unlock`, which sets `again`.
unfoldable pub forget : Mutex → ℕ → Mutex
forget m w = record m {
  granted_to = none;
  awaiter = update m.awaiter w (record (m.awaiter w) { active = false; granted = false });
}

-- A round of the loop of `unlock`, whose next rounds are `again`.
unfoldable pub hand_over : (ℕ → Fate) → (Mutex → Unlocked) → Mutex × Option ℕ → Unlocked
unfolding forget
hand_over ex again (m, none) = done m
hand_over ex again (m, some w) = elim (ex w) [
  | kept ↦ done (record m { posted = m.posted ++ w ∷ [] })
  | destroyed ↦ again (forget m w)
  | mutex_gone ↦ gone
]

-- The loop of `unlock`.
unfoldable pub unlock_loop : (ℕ → Fate) → ℕ → Mutex → Unlocked
unfolding hand_over grant_next
unlock_loop ex zero m = out_of_fuel
unlock_loop ex (suc fuel) m = hand_over ex (unlock_loop ex fuel) (grant_next m)

-- Each round takes a waiter from the queue.
unfoldable pub unlock : (ℕ → Fate) → Mutex → Unlocked
unfolding unlock_loop
unlock ex m = unlock_loop ex (suc (length m.waiters)) m

-- `~lock_awaiter`.
unfoldable pub destroy_awaiter : (ℕ → Fate) → Mutex → ℕ → Unlocked
unfolding unlock forget
destroy_awaiter ex m w =
    let a = m.awaiter w in
    let unlinked = record m {
      waiters = if a.in_list then remove w m.waiters else m.waiters;
      awaiter = update m.awaiter w (record a { active = false });
    } in
    if a.granted then unlock ex (forget unlinked w) else done unlinked

abbrev pub close : Awaiter → Awaiter
close a =
    if a.claimed
    then record a { in_list = false }
    else record a { in_list = false; claimed = true; canceled = true }

-- The loop of `~async_mutex`: every waiter that nobody has claimed is posted, canceled.
unfoldable pub cancel_all : (ℕ → Awaiter) → List ℕ → List ℕ → (ℕ → Awaiter) × List ℕ
unfolding update
cancel_all f [] posted = (f, posted)
cancel_all f (w ∷ ws) posted =
    cancel_all (update f w (close (f w))) ws (if (f w).claimed then posted else posted ++ w ∷ [])

-- An awaiter that was handed the lock is told that there is none.
unfoldable pub tell_granted : (ℕ → Awaiter) → Option ℕ → ℕ → Awaiter
unfolding update
tell_granted f none = f
tell_granted f (some w) = update f w (record (f w) { granted = false; canceled = true })

-- `~async_mutex`.
unfoldable pub destroy_mutex : Mutex → Mutex
unfolding cancel_all tell_granted
destroy_mutex m =
    let (f, posted) = cancel_all (tell_granted m.awaiter m.granted_to) m.waiters m.posted in
    record m { waiters = []; awaiter = f; posted = posted }
