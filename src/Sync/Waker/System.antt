-- ===== src/Sync/Waker/System.antt =====
-- One waiter after another, the threads that wake it, its stop callback and the destructor of the
-- waker, as a step relation. The ghost state says how far the waiter is, who has claimed it and not
-- posted it yet, and how many calls of `wake` took effect, how many waits were woken, and how many
-- waiters were woken and destroyed before they were resumed.
use capy.Base.{ℕ, ◌+◌, Bool, true, false, not, Option, none, some, ◌≡◌, ◌&&◌}
use capy.Sync.Counts.{flag, times}
use capy.Sync.Waker.{
  Waker, wait_awaiter, async_waker, ends, claims, claim_armed, wake, wake_claimed, cancel_claimed,
  destroy_claimed, await_ready, suspend_stopped, register, arm, publish, await_resume,
  destroy_awaiter, is_empty,
}

pub data Phase : Type 0 where
  idle : Phase
  looked registered arming_ waiting : ℕ → Phase

pub data Claimant : Type 0 where
  waker_call stop_callback destructor : Claimant

pub record System : Type 0 where
  pub waker : Waker
  pub phase : Phase
  pub owed : Option (ℕ × Claimant)
  pub won : ℕ
  pub got : ℕ
  pub dropped : ℕ

-- The wait of `w` ends by `await_resume`.
abbrev pub finished : System → Waker × Bool → System
finished s (k, woken) = record s { waker = k; phase = idle; got = flag woken + s.got }

abbrev pub settled : Waker → ℕ → Claimant → Waker
settled k w waker_call = wake_claimed k w
settled k w stop_callback = cancel_claimed k w
settled k w destructor = destroy_claimed k w

pub data Step (s : System) : System → Type 0 where
  passes :
      (w : ℕ)
      → s.phase ≡ idle
      → s.waker.awaiter w ≡ wait_awaiter
      → (await_ready s.waker).1 ≡ true
      → Step s (finished s (await_resume (await_ready s.waker).0 w))
  looks :
      (w : ℕ)
      → s.phase ≡ idle
      → s.waker.awaiter w ≡ wait_awaiter
      → (await_ready s.waker).1 ≡ false
      → Step s (record s { phase = looked w })
  refuses :
      (w : ℕ)
      → s.phase ≡ looked w
      → Step s (finished s (await_resume (suspend_stopped s.waker w) w))
  registers :
      (w : ℕ)
      → s.phase ≡ looked w
      → Step s (record s { waker = register s.waker w; phase = registered w })
  arms :
      (w : ℕ)
      → s.phase ≡ registered w
      → (arm s.waker w).1 ≡ true
      → Step s (record s { waker = (arm s.waker w).0; phase = arming_ w })
  takes :
      (w : ℕ)
      → s.phase ≡ registered w
      → (arm s.waker w).1 ≡ false
      → Step s (finished s (await_resume (arm s.waker w).0 w))
  suspends :
      (w : ℕ)
      → s.phase ≡ arming_ w
      → Step s (record s { waker = (publish s.waker w false).0; phase = waiting w })
  stops_arming :
      (w : ℕ)
      → s.phase ≡ arming_ w
      → Step s (finished s (await_resume (publish s.waker w true).0 w))
  cancels :
      (k : Waker) (w u : ℕ)
      → (s.waker.awaiter u).active_ ≡ true
      → claim_armed s.waker ≡ claims k w
      → Step s (record s { waker = k; owed = some (w, stop_callback) })
  dies :
      (k : Waker) (w : ℕ)
      → claim_armed s.waker ≡ claims k w
      → Step s (record s { waker = k; owed = some (w, destructor) })
  wakes :
      (k : Waker) (w : ℕ)
      → wake s.waker ≡ claims k w
      → Step s (record s { waker = k; owed = some (w, waker_call); won = 1 + s.won })
  latches :
      (k : Waker)
      → wake s.waker ≡ ends k
      → Step s (record s { waker = k; won = flag (is_empty s.waker.st_) + s.won })
  posts :
      (w : ℕ) (c : Claimant)
      → s.owed ≡ some (w, c)
      → Step s (record s { waker = settled s.waker w c; owed = none })
  resumes :
      (w : ℕ)
      → s.phase ≡ waiting w
      → times w s.waker.posted ≡ 1
      → Step s (finished s (await_resume s.waker w))
  destroys :
      (w : ℕ)
      → s.phase ≡ waiting w
      → s.owed ≡ none
      → Step s (record s {
        waker = destroy_awaiter s.waker w;
        phase = idle;
        dropped =
            flag ((s.waker.awaiter w).claimed_ && not (s.waker.awaiter w).canceled_) + s.dropped;
      })

abbrev pub start : System
start = record { waker = async_waker; phase = idle; owed = none; won = 0; got = 0; dropped = 0 }

pub data Reach : System → Type 0 where
  begin : Reach start
  then_ : {s t : System} → Reach s → Step s t → Reach t
