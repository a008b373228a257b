-- ===== src/Sync/Mutex/System.antt =====
-- The coroutines that lock a mutex, and their stop tokens, as a step relation. The ghost state says
-- who holds the lock: whose `lock` has returned with success and who has not called `unlock` since.
use capy.Base.{ℕ, Bool, true, false, List, [], ◌∷◌, ◌≡◌, ◌==◌, if◌then◌else◌, has}
use capy.Sync.Counts.{times}
use capy.Sync.Mutex.{
  Mutex, async_mutex, remove, await_ready, await_suspend, cancel, await_resume, Fate, done, unlock,
  destroy_awaiter,
}

pub record System : Type 0 where
  pub mutex : Mutex
  -- the awaiters that were awaited or destroyed, and those that were resumed or destroyed
  pub seen : ℕ → Bool
  pub left : ℕ → Bool
  pub holders : List ℕ

abbrev pub mark : (ℕ → Bool) → ℕ → ℕ → Bool
mark f w v = if v == w then true else f v

-- The awaiter `w` returns from `co_await`; the result says whether with the lock.
abbrev pub returned : System → ℕ → Mutex × Bool → System
returned s w (m, success) = record {
  mutex = m;
  seen = mark s.seen w;
  left = mark s.left w;
  holders = if success then w ∷ s.holders else s.holders;
}

abbrev pub suspended : System → ℕ → Bool → System
suspended s w stop_requested = record s {
  mutex = (await_suspend s.mutex w stop_requested).0;
  seen = mark s.seen w;
}

pub data Step (s : System) : System → Type 0 where
  acquires :
      (w : ℕ)
      → s.seen w ≡ false
      → (await_ready s.mutex).1 ≡ true
      → Step s (returned s w (await_resume (await_ready s.mutex).0 w))
  suspends :
      (w : ℕ) → s.seen w ≡ false → (await_ready s.mutex).1 ≡ false → Step s (suspended s w false)
  refuses :
      (w : ℕ)
      → s.seen w ≡ false
      → (await_ready s.mutex).1 ≡ false
      → Step s (returned (suspended s w true) w (await_resume (suspended s w true).mutex w))
  stops :
      (w : ℕ) → (s.mutex.awaiter w).active ≡ true → Step s (record s { mutex = cancel s.mutex w })
  resumes :
      (w : ℕ)
      → times w s.mutex.posted ≡ 1
      → s.left w ≡ false
      → Step s (returned s w (await_resume s.mutex w))
  unlocks :
      (w : ℕ) (ex : ℕ → Fate) (m : Mutex)
      → has w s.holders ≡ true
      → unlock ex s.mutex ≡ done m
      → Step s (record s { mutex = m; holders = remove w s.holders })
  destroys :
      (w : ℕ) (ex : ℕ → Fate) (m : Mutex)
      → destroy_awaiter ex s.mutex w ≡ done m
      → Step s (record s { mutex = m; seen = mark s.seen w; left = mark s.left w })

unfoldable pub start : System
unfolding async_mutex
start = record { mutex = async_mutex; seen = λ _. false; left = λ _. false; holders = [] }

pub data Reach : System → Type 0 where
  begin : Reach start
  then_ : {s t : System} → Reach s → Step s t → Reach t
