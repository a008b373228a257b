-- ===== src/Examples/Exclusion.antt =====
-- Three coroutines lock a mutex; the second is canceled, and the third gets the lock from the first.
use capy.Base.{ℕ, ◌≡◌, refl, false, [], ◌∷◌}
use capy.Sync.Mutex.{
  Mutex, async_mutex, update, await_ready, await_suspend, cancel, await_resume, Fate, kept,
  Unlocked, done, gone, out_of_fuel, unlock, unlock_loop, grant_next, grant_loop, grant_done,
  hand_over, forget,
}
use capy.Sync.Mutex.System.{
  System, returned, suspended, start, Reach, begin, then_, acquires, suspends, stops, unlocks,
  resumes,
}
use capy.Sync.Mutex.Exclusion.{Exclusive, Reach-Exclusive}

abbrev first_in : System
first_in = returned start 1 (await_resume (await_ready start.mutex).0 1)

abbrev waiting : System
waiting = suspended (suspended first_in 2 false) 3 false

abbrev stopped : System
stopped = record waiting { mutex = cancel waiting.mutex 2 }

stopped-Reach : Reach stopped
unfolding start async_mutex await_ready await_resume await_suspend update
stopped-Reach =
    then_
      (then_ (then_ (then_ begin (acquires 1 refl refl)) (suspends 2 refl refl))
        (suspends 3 refl refl))
      (stops 2 refl)

abbrev keep_all : ℕ → Fate
keep_all w = kept

mutex_of : Unlocked → Mutex
mutex_of (done m) = m
mutex_of gone = async_mutex
mutex_of out_of_fuel = async_mutex

abbrev unlocked : System
unfolding mutex_of
unlocked = record stopped { mutex = mutex_of (unlock keep_all stopped.mutex); holders = [] }

unlocked-Reach : Reach unlocked
unfolding start async_mutex await_ready await_resume await_suspend update cancel unlock unlock_loop
    grant_next grant_loop grant_done hand_over forget mutex_of
unlocked-Reach = then_ stopped-Reach (unlocks 1 keep_all unlocked.mutex refl refl)

abbrev handed : System
handed = returned unlocked 3 (await_resume unlocked.mutex 3)

handed-Reach : Reach handed
unfolding start async_mutex await_ready await_resume await_suspend update cancel unlock unlock_loop
    grant_next grant_loop grant_done hand_over forget mutex_of
handed-Reach = then_ unlocked-Reach (resumes 3 refl refl)

handed_test : handed.holders ≡ 3 ∷ []
unfolding start async_mutex await_ready await_resume await_suspend update cancel unlock unlock_loop
    grant_next grant_loop grant_done hand_over forget mutex_of
handed_test = refl

Reach-Exclusive_example : Exclusive handed
Reach-Exclusive_example = Reach-Exclusive handed-Reach
