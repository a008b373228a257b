-- ===== src/Examples/Waker.antt =====
-- A waiter is woken while a second call of `wake` is latched for the next wait, which takes it.
use capy.Base.{◌≡◌, refl, false, some, none, [], ◌∷◌}
use capy.Sync.Waker.{
  empty, token, await_ready, register, arm, publish, wake, wake_found, wake_claimed, post,
  await_resume,
}
use capy.Sync.Waker.System.{
  System, start, Reach, begin, then_, registered, waiting, waker_call, settled, finished, passes,
  looks, registers, arms, suspends, wakes, posts, latches, resumes,
}
use capy.Sync.Waker.Armed.{Faithful}
use capy.Sync.Waker.Balance.{Reach-Faithful}

abbrev ready : System
ready = record start { waker = register start.waker 5; phase = registered 5 }

abbrev asleep : System
asleep = record ready { waker = (publish (arm ready.waker 5).0 5 false).0; phase = waiting 5 }

abbrev claimed : System
claimed = record asleep {
  waker = record asleep.waker { st_ = empty };
  owed = some (5, waker_call);
  won = 1;
}

abbrev latched : System
latched = record claimed { waker = record claimed.waker { st_ = token }; won = 2 }

abbrev told : System
told = record latched { waker = settled latched.waker 5 waker_call; owed = none }

abbrev resumed : System
resumed = finished told (await_resume told.waker 5)

abbrev last : System
last = finished resumed (await_resume (await_ready resumed.waker).0 6)

last-Reach : Reach last
unfolding await_ready register arm publish wake wake_found wake_claimed post await_resume
last-Reach =
    then_
      (then_
        (then_
          (then_
            (then_
              (then_
                (then_ (then_ (then_ begin (looks 5 refl refl refl)) (registers 5 refl))
                  (arms 5 refl refl))
                (suspends 5 refl))
              (wakes _ 5 refl))
            (latches _ refl))
          (posts 5 waker_call refl))
        (resumes 5 refl refl))
      (passes 6 refl refl refl)

last_test : (last.got ≡ 2) × (last.waker.posted ≡ 5 ∷ [])
unfolding await_ready register arm publish wake_claimed post await_resume
last_test = (refl, refl)

Reach-Faithful_example : Faithful last
Reach-Faithful_example = Reach-Faithful last-Reach
