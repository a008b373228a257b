-- ===== src/Sync/Waker/Wakes.antt =====
-- The claims of the waiter, and what follows them.
use capy.Base.{
  ℕ, ◌+◌, ◌≡◌, refl, sym, ap, subst, ◌∙◌, arith, Bool, true, false, not, Option, none, some,
  if◌then◌else◌,
}
use capy.Sync.Counts.{flag, times, is_it}
use capy.Sync.Waker.{
  Slot, empty, token, armed, arming, Waker, Awaiter, ends, claims, set_slot, claim_found,
  wake_found, post, wake_claimed, cancel_claimed, destroy_claimed, is_token, is_empty, await_resume,
}
use capy.Sync.Waker.System.{
  System, Phase, waiting, Claimant, waker_call, stop_callback, destructor, finished, settled,
}
use capy.Sync.Waker.Armed.{
  wakes_now, Stands, rests, looking, ready, entering, sleeps, caught, woken, Faithful, at_armed,
  at_owed, at_posted,
}
use capy.Sync.Waker.Kept.{post-Once, finish-Faithful}

abbrev Claimed : Waker → Slot → Waker → ℕ → Type 0
Claimed k t q w = (t ≡ armed) × (q ≡ set_slot k empty) × (w ≡ k.waiter_)

pub claim_found-Claimed :
    (k : Waker) (t : Slot) (q : Waker) (w : ℕ) → claim_found k t ≡ claims q w → Claimed k t q w
unfolding claim_found
claim_found-Claimed k empty q w h = cc h
claim_found-Claimed k token q w h = cc h
claim_found-Claimed k armed q w h = (refl, cc h, cc h)
claim_found-Claimed k arming q w h = cc h

pub wake_found-Claimed :
    (k : Waker) (t : Slot) (q : Waker) (w : ℕ) → wake_found k t ≡ claims q w → Claimed k t q w
unfolding wake_found
wake_found-Claimed k empty q w h = cc h
wake_found-Claimed k token q w h = cc h
wake_found-Claimed k armed q w h = (refl, cc h, cc h)
wake_found-Claimed k arming q w h = cc h

pub catch-Faithful :
    (s : System) (c : Claimant) (q : Waker) (w m : ℕ)
    → m ≡ wakes_now c + s.won
    → Faithful s
    → Claimed s.waker s.waker.st_ q w
    → Faithful (record s { waker = q; owed = some (w, c); won = m })
catch-Faithful s c q w m sum v (at_, e, it) =
    let (here, n, new) = at_armed v.stands at_ in
    subst (λ k. Faithful (record s { waker = k; owed = some (w, c); won = m })) (sym e)
      record {
        once = v.once;
        holds = wakes_now c;
        stands =
            caught w c (here ∙ ap waiting (sym it)) refl refl refl (ap s.waker.awaiter it ∙ new);
        kept = omega (arith, sum, v.kept, n, ap (λ t. flag (is_token t)) at_);
      }

latched-Stands :
    (k : Waker) (p : Phase) (o : Option (ℕ × Claimant)) (n : ℕ)
    → k.st_ ≡ empty
    → Stands k p o n
    → Stands (set_slot k token) p o n
latched-Stands k p o n h (rests a b c d) = rests a b c refl
latched-Stands k p o n h (looking w a b c d e) = looking w a b c refl e
latched-Stands k p o n h (ready w a b c d e f) = ready w a b c refl e f
latched-Stands k p o n h (entering w a b c d e f) = cc (d, h)
latched-Stands k p o n h (sleeps w a b c d e f) = cc (d, h)
latched-Stands k p o n h (caught w x a b c d e) = caught w x a b c refl e
latched-Stands k p o n h (woken w a b c d e) = woken w a b c refl e

pub latch-Faithful :
    (s : System) (t : Slot) (q : Waker)
    → s.waker.st_ ≡ t
    → wake_found s.waker t ≡ ends q
    → Faithful s
    → Faithful (record s { waker = q; won = flag (is_empty t) + s.won })
unfolding wake_found
latch-Faithful s empty q e h v =
    subst (λ k. Faithful (record s { waker = k; won = 1 + s.won })) {x = set_slot s.waker token}
      (cc h)
      record {
        once = v.once;
        holds = v.holds;
        stands = latched-Stands s.waker s.phase s.owed v.holds e v.stands;
        kept = omega (arith, v.kept, ap (λ t. flag (is_token t)) e);
      }
latch-Faithful s token q e h v =
    subst (λ k. Faithful (record s { waker = k; won = 0 + s.won })) {x = s.waker} (cc h)
      record { once = v.once; holds = v.holds; stands = v.stands; kept = omega (arith, v.kept) }
latch-Faithful s armed q e h v = cc h
latch-Faithful s arming q e h v = cc h

-- Posting keeps who is claimed, and whether it was woken.
posted-Faithful :
    (s : System) (w : ℕ) (c : Claimant) (a : Awaiter)
    → Faithful s
    → s.owed ≡ some (w, c)
    → a.claimed_ ≡ true
    → wakes_now c ≡ flag (not a.canceled_)
    → Faithful (record s { waker = post s.waker w a; owed = none })
unfolding post
posted-Faithful s w c a v h t e =
    let (here, n, free, new) = at_owed w c v.stands h in
    let mine : (post s.waker w a).awaiter w ≡ a =
      ap (λ b. if b then a else s.waker.awaiter w) (is_it w w refl) in
    record {
      once = post-Once s.waker w a v.once (ap (λ x. x.claimed_) new) t;
      holds = wakes_now c;
      stands =
          woken w here refl (e ∙ ap (λ x. flag (not x.canceled_)) (sym mine)) free
            (ap (λ x. x.claimed_) mine ∙ t);
      kept = omega (arith, v.kept, n);
    }

pub post-Faithful :
    (s : System) (w : ℕ) (c : Claimant)
    → Faithful s
    → s.owed ≡ some (w, c)
    → Faithful (record s { waker = settled s.waker w c; owed = none })
unfolding wake_claimed cancel_claimed destroy_claimed
post-Faithful s w waker_call v h =
    let (here, n, free, new) = at_owed w waker_call v.stands h in
    posted-Faithful s w waker_call _ v h refl (ap (λ x. flag (not x.canceled_)) (sym new))
post-Faithful s w stop_callback v h = posted-Faithful s w stop_callback _ v h refl refl
post-Faithful s w destructor v h = posted-Faithful s w destructor _ v h refl refl

flag_one : (b : Bool) → flag b ≡ 1 → b ≡ true
flag_one true h = refl
flag_one false h = absurd (omega (arith, h))

pub resume-Faithful :
    (s : System) (w : ℕ)
    → Faithful s
    → s.phase ≡ waiting w
    → times w s.waker.posted ≡ 1
    → Faithful (finished s (await_resume s.waker w))
resume-Faithful s w v h posted =
    let t = flag_one (s.waker.awaiter w).claimed_ (sym (v.once w) ∙ posted) in
    let (nobody, n, free) = at_posted w v.stands h t in
    finish-Faithful s s.waker w v.once nobody free (omega (arith, v.kept, n))
