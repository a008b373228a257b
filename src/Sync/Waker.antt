-- ===== src/Sync/Waker.antt =====
-- include/boost/capy/ex/async_waker.hpp, access by access of the atomic state: between two of them
-- other threads may run. An awaiter is a number, and a continuation is posted under it.
pub mod System
pub mod Armed
pub mod Kept
pub mod Wakes
pub mod Balance
use capy.Base.{ℕ, Bool, true, false, not, List, [], ◌∷◌, ◌++◌, ◌==◌, ◌&&◌, if◌then◌else◌}

-- The values of `st_`.
pub data Slot : Type 0 where
  empty token armed arming : Slot

-- The members of `wait_awaiter`; `active_` says that its stop callback is registered.
pub record Awaiter : Type 0 where
  pub canceled_ : Bool
  pub active_ : Bool
  pub published_ : Bool
  pub claimed_ : Bool

abbrev pub wait_awaiter : Awaiter
wait_awaiter = record { canceled_ = false; active_ = false; published_ = false; claimed_ = false }

pub record Waker : Type 0 where
  pub st_ : Slot
  pub waiter_ : ℕ
  pub awaiter : ℕ → Awaiter
  -- the continuations posted to executors, in order
  pub posted : List ℕ

abbrev pub async_waker : Waker
async_waker = record { st_ = empty; waiter_ = 0; awaiter = λ _. wait_awaiter; posted = [] }

abbrev pub set_awaiter : Waker → ℕ → Awaiter → Waker
set_awaiter k w a = record k { awaiter = λ v. if v == w then a else k.awaiter v }

abbrev pub set_slot : Waker → Slot → Waker
set_slot k s = record k { st_ = s }

-- What an access of `st_` leads to: the call ends, it goes on with the waiter that it has claimed, or
-- it tries again.
pub data Access : Type 0 where
  ends : Waker → Access
  claims : Waker → ℕ → Access
  retries : Access

-- `claim_armed` and the value of `st_` that it finds; it fails by ending.
unfoldable pub claim_found : Waker → Slot → Access
claim_found k empty = ends k
claim_found k token = ends k
claim_found k armed = claims (set_slot k empty) k.waiter_
claim_found k arming = retries

unfoldable pub claim_armed : Waker → Access
unfolding claim_found
claim_armed k = claim_found k k.st_

-- `wake` and the value of `st_` that it finds.
unfoldable pub wake_found : Waker → Slot → Access
wake_found k empty = ends (set_slot k token)
wake_found k token = ends k
wake_found k armed = claims (set_slot k empty) k.waiter_
wake_found k arming = retries

unfoldable pub wake : Waker → Access
unfolding wake_found
wake k = wake_found k k.st_

unfoldable pub post : Waker → ℕ → Awaiter → Waker
post k w a = record (set_awaiter k w a) { posted = k.posted ++ w ∷ [] }

-- The rest of `wake`, of the stop callback and of `~async_waker` for the waiter that they claimed.
unfoldable pub wake_claimed : Waker → ℕ → Waker
unfolding post
wake_claimed k w = post k w (record (k.awaiter w) { active_ = false; claimed_ = true })

unfoldable pub cancel_claimed : Waker → ℕ → Waker
unfolding post
cancel_claimed k w = post k w (record (k.awaiter w) { canceled_ = true; claimed_ = true })

unfoldable pub destroy_claimed : Waker → ℕ → Waker
unfolding post
destroy_claimed k w =
    post k w (record (k.awaiter w) { active_ = false; canceled_ = true; claimed_ = true })

abbrev pub is_token : Slot → Bool
is_token empty = false
is_token token = true
is_token armed = false
is_token arming = false

abbrev pub is_empty : Slot → Bool
is_empty empty = true
is_empty token = false
is_empty armed = false
is_empty arming = false

abbrev pub is_armed : Slot → Bool
is_armed empty = false
is_armed token = false
is_armed armed = true
is_armed arming = false

-- `await_ready`: takes a latched token.
unfoldable pub await_ready : Waker → Waker × Bool
await_ready k = if is_token k.st_ then (set_slot k empty, true) else (k, false)

-- `await_suspend` when a stop was requested before.
unfoldable pub suspend_stopped : Waker → ℕ → Waker
suspend_stopped k w = set_awaiter k w (record (k.awaiter w) { canceled_ = true })

-- `await_suspend` up to its first access of `st_`.
unfoldable pub register : Waker → ℕ → Waker
register k w =
    set_awaiter (record k { waiter_ = w }) w
      (record (k.awaiter w) { active_ = true; published_ = true })

-- The first access and what follows up to the next; the result says whether the waiter is arming. If
-- not, it takes the token and goes on.
unfoldable pub arm : Waker → ℕ → Waker × Bool
arm k w = if is_empty k.st_ then (set_slot k arming, true) else (
  set_slot (set_awaiter k w (record (k.awaiter w) { active_ = false; published_ = false })) empty,
  false,
)

-- The rest of `await_suspend`; the result says whether the coroutine stays suspended.
unfoldable pub publish : Waker → ℕ → Bool → Waker × Bool
publish k w stop_requested =
    if stop_requested
    then (
      set_slot (set_awaiter k w (record (k.awaiter w) { published_ = false; canceled_ = true }))
          empty,
      false,
    )
    else (set_slot k armed, true)

-- `await_resume`; the result says whether the wait was woken.
unfoldable pub await_resume : Waker → ℕ → Waker × Bool
await_resume k w = (
  set_awaiter k w (record (k.awaiter w) { active_ = false; published_ = false }),
  not (k.awaiter w).canceled_,
)

-- `~wait_awaiter`.
unfoldable pub destroy_awaiter : Waker → ℕ → Waker
destroy_awaiter k w =
    let a = k.awaiter w in
    let q = set_awaiter k w (record a { active_ = false }) in
    if (a.published_ && not a.claimed_) && is_armed k.st_ then set_slot q empty else q
