-- ===== src/Sync/Waker/Balance.antt =====
-- The destructor of an awaiter, and every state that a schedule reaches.
use capy.Base.{
  ℕ, ◌+◌, ◌≡◌, refl, sym, ap, subst, ◌∙◌, arith, Bool, true, false, not, none, ◌&&◌, if◌then◌else◌,
  inl, inr,
}
use capy.Sync.Counts.{flag}
use capy.Sync.Waker.{
  empty, Waker, wait_awaiter, set_awaiter, set_slot, claim_armed, wake, is_token, is_armed,
  destroy_awaiter,
}
use capy.Sync.Waker.System.{
  System, idle, looked, waiting, waker_call, stop_callback, destructor, Step, passes, looks,
  refuses, registers, arms, takes, suspends, stops_arming, cancels, dies, wakes, latches, posts,
  resumes, destroys, start, Reach, begin, then_,
}
use capy.Sync.Waker.Armed.{Once, is_free, rests, looking, Faithful, at_idle, at_left}
use capy.Sync.Waker.Kept.{
  set-Once, pass-Faithful, refuse-Faithful, register-Faithful, arm-Faithful, take-Faithful,
  suspend-Faithful, stop_arming-Faithful,
}
use capy.Sync.Waker.Wakes.{
  claim_found-Claimed, wake_found-Claimed, catch-Faithful, latch-Faithful, post-Faithful,
  resume-Faithful,
}

abbrev torn : Waker → ℕ → Bool → Waker
torn k w b =
    let q = set_awaiter k w (record (k.awaiter w) { active_ = false }) in
    if b then set_slot q empty else q

abbrev is_linked : Waker → ℕ → Bool
is_linked k w = ((k.awaiter w).published_ && not (k.awaiter w).claimed_) && is_armed k.st_

and_not : (a b c : Bool) → b ≡ true → ((a && not b) && c) ≡ false
and_not false b c h = refl
and_not true true c h = refl
and_not true false c h = cc h

destroyed-Faithful :
    (s : System) (w : ℕ) (b : Bool)
    → Once s.waker
    → s.owed ≡ none
    → is_free (torn s.waker w b).st_ ≡ true
    → s.won
      ≡ s.got
        + flag ((s.waker.awaiter w).claimed_ && not (s.waker.awaiter w).canceled_)
        + s.dropped
        + flag (is_token (torn s.waker w b).st_)
    → Faithful (record s {
      waker = torn s.waker w b;
      phase = idle;
      dropped =
          flag ((s.waker.awaiter w).claimed_ && not (s.waker.awaiter w).canceled_) + s.dropped;
    })
destroyed-Faithful s w true once nobody free kept = record {
  once = set-Once s.waker w _ once refl;
  holds = 0;
  stands = rests refl nobody refl free;
  kept = omega (arith, kept);
}
destroyed-Faithful s w false once nobody free kept = record {
  once = set-Once s.waker w _ once refl;
  holds = 0;
  stands = rests refl nobody refl free;
  kept = omega (arith, kept);
}

destroy-Faithful :
    (s : System) (w : ℕ)
    → Faithful s
    → s.phase ≡ waiting w
    → s.owed ≡ none
    → Faithful (record s {
      waker = destroy_awaiter s.waker w;
      phase = idle;
      dropped =
          flag ((s.waker.awaiter w).claimed_ && not (s.waker.awaiter w).canceled_) + s.dropped;
    })
unfolding destroy_awaiter
destroy-Faithful s w v h nobody =
    let a = s.waker.awaiter w in
    let P = λ (b : Bool). Faithful (record s {
      waker = torn s.waker w b;
      phase = idle;
      dropped = flag (a.claimed_ && not a.canceled_) + s.dropped;
    }) in
    elim (at_left w v.stands h nobody) [
      | inl (at_, new, n) ↦
          let on : is_linked s.waker w ≡ true =
            ap (λ x. (x.published_ && not x.claimed_) && is_armed s.waker.st_) new
            ∙ ap is_armed at_ in
          subst P (sym on) (
            destroyed-Faithful s w true v.once nobody refl (
              omega (
                arith,
                v.kept,
                n,
                ap (λ t. flag (is_token t)) at_,
                ap (λ x. flag (x.claimed_ && not x.canceled_)) new,
              )))
      | inr (t, free, n) ↦
          let off : is_linked s.waker w ≡ false =
            and_not a.published_ a.claimed_ (is_armed s.waker.st_) t in
          subst P (sym off) (
            destroyed-Faithful s w false v.once nobody free
              (omega (arith, v.kept, n, ap (λ c. flag (c && not a.canceled_)) t)))
    ]

look-Faithful :
    (s : System) (w : ℕ)
    → Faithful s
    → s.phase ≡ idle
    → s.waker.awaiter w ≡ wait_awaiter
    → Faithful (record s { phase = looked w })
look-Faithful s w v h new =
    let (nobody, n, free) = at_idle v.stands h in
    record {
      once = v.once;
      holds = 0;
      stands = looking w refl nobody refl free new;
      kept = omega (arith, v.kept, n);
    }

Step-Faithful : {s t : System} → Step s t → Faithful s → Faithful t
unfolding claim_armed wake
Step-Faithful {s} (passes w h new there) v = pass-Faithful s w v h new there
Step-Faithful {s} (looks w h new there) v = look-Faithful s w v h new
Step-Faithful {s} (refuses w h) v = refuse-Faithful s w v h
Step-Faithful {s} (registers w h) v = register-Faithful s w v h
Step-Faithful {s} (arms w h hit) v = arm-Faithful s w v h hit
Step-Faithful {s} (takes w h miss) v = take-Faithful s w v h miss
Step-Faithful {s} (suspends w h) v = suspend-Faithful s w v h
Step-Faithful {s} (stops_arming w h) v = stop_arming-Faithful s w v h
Step-Faithful {s} (cancels k w u on h) v =
    catch-Faithful s stop_callback k w _ (omega arith) v
      (claim_found-Claimed s.waker s.waker.st_ k w h)
Step-Faithful {s} (dies k w h) v =
    catch-Faithful s destructor k w _ (omega arith) v
      (claim_found-Claimed s.waker s.waker.st_ k w h)
Step-Faithful {s} (wakes k w h) v =
    catch-Faithful s waker_call k w _ (refl) v (wake_found-Claimed s.waker s.waker.st_ k w h)
Step-Faithful {s} (latches k h) v = latch-Faithful s s.waker.st_ k refl h v
Step-Faithful {s} (posts w c h) v = post-Faithful s w c v h
Step-Faithful {s} (resumes w h posted) v = resume-Faithful s w v h posted
Step-Faithful {s} (destroys w h nobody) v = destroy-Faithful s w v h nobody

start-Faithful : Faithful start
start-Faithful = record {
  once = λ v. refl;
  holds = 0;
  stands = rests refl refl refl refl;
  kept = refl;
}

-- Whatever one waiter after another, the threads that call wake, the stop callbacks and the
-- destructor of the waker do, with other threads between any two accesses of the atomic state: an
-- awaiter is posted once when it is claimed, and never otherwise; a suspended waiter is armed, so
-- that the next call of wake claims it, or it is claimed and about to be posted, or posted; and
-- every call of wake that took effect has woken a wait that returned with success, or wakes the one
-- that is suspended, or is latched as the token, or woke a waiter that was destroyed before it was
-- resumed.
pub Reach-Faithful : {s : System} → Reach s → Faithful s
Reach-Faithful begin = start-Faithful
Reach-Faithful (then_ reach step) = Step-Faithful step (Reach-Faithful reach)
