-- ===== src/Sync/Event/End.antt =====
-- The whole destructor: who is resumed, in which order, and with what.
use capy.Base.{
  ℕ, ◌≡◌, refl, sym, ap, subst, ◌∙◌, arith, Bool, true, false, not, List, [], ◌∷◌, ◌++◌, inl, inr,
  ◌==◌, if◌then◌else◌, if-elim, Bool-cases, length, append-nil, append_assoc,
}
use capy.Sync.Event.{
  Waiter, Event, modify, end_claim, cancel_first, cancel_next, turns, destroy_event, await_resume,
}
use capy.Sync.Counts.{flag, times}
use capy.Sync.Event.System.{System, Reach}
use capy.Sync.Event.Once.{Reach-Sound}
use capy.Sync.Event.Whole.{pending, pending-modify, Once, times-of_Once, tail-Once}

-- What the loop of the destructor makes of the waiters `ws`.
record Emptied (e e' : Event) (ws : List ℕ) : Type 0 where
  posted : e'.posted ≡ e.posted ++ pending e.waiter ws
  taken : e'.taken ≡ e.taken
  waiters : e'.waiters ≡ []
  keeps : (v : ℕ) → (e.waiter v).canceled ≡ true → (e'.waiter v).canceled ≡ true
  tells : (v : ℕ) → times v (pending e.waiter ws) ≡ 1 → (e'.waiter v).canceled ≡ true

ends_one :
    (f : ℕ → Waiter) (w v : ℕ) → (f v).canceled ≡ true → (modify f w end_claim v).canceled ≡ true
unfolding modify
ends_one f w v h =
    if-elim (λ a. a.canceled ≡ true) (v == w) (end_claim (f v)) (f v)
      (λ _. if-elim (λ b. b ≡ true) (f v).claimed (f v).canceled true (λ _. h) (λ _. refl)) (λ _. h)

ends_it :
    (f : ℕ → Waiter) (w v : ℕ)
    → (f w).claimed ≡ false
    → (v == w) ≡ true
    → (modify f w end_claim v).canceled ≡ true
unfolding modify
ends_it f w v h e =
    let eq : v ≡ w = ground (arith, e) in
    let free : (f v).claimed ≡ false = ap (λ x. (f x).claimed) eq ∙ h in
    ap (λ c. (if c then end_claim (f v) else f v).canceled) e
    ∙ ap (λ c. if c then (f v).canceled else true) free

posted_more :
    (c : Bool) (old rest : List ℕ) (w : ℕ)
    → (if c then old else old ++ w ∷ []) ++ rest ≡ old ++ (if c then rest else w ∷ rest)
posted_more true old rest w = refl
posted_more false old rest w = append_assoc old (w ∷ []) rest

cancel-Emptied :
    (e e' : Event) (w : ℕ) (ws : List ℕ)
    → Once (w ∷ ws)
    → Emptied (cancel_first e (w ∷ ws)) e' ws
    → Emptied e e' (w ∷ ws)
unfolding cancel_first pending
cancel-Emptied e e' w ws once d =
    let f = e.waiter in
    let same = pending-modify f w end_claim ws (times-of_Once w ws once) in
    let go : (v : ℕ) → times v (pending f ws) ≡ 1 → (e'.waiter v).canceled ≡ true =
      λ v h. d.tells v (ap (times v) same ∙ h) in
    record {
      posted =
          d.posted
          ∙ ap (λ l. (cancel_first e (w ∷ ws)).posted ++ l) same
          ∙ posted_more (f w).claimed e.posted (pending f ws) w;
      taken = d.taken;
      waiters = d.waiters;
      keeps = λ v h. d.keeps v (ends_one f w v h);
      tells = λ v.
          if-elim (λ l. times v l ≡ 1 → (e'.waiter v).canceled ≡ true) (f w).claimed (pending f ws)
            (w ∷ pending f ws) (λ _. go v)
            (λ open_ h. elim (Bool-cases (v == w)) [
              | inl it ↦ d.keeps v (ends_it f w v open_ it)
              | inr other ↦ go v (omega (arith, h, ap flag other))
            ]);
    }

turns-Emptied :
    (ws : List ℕ) (e : Event)
    → e.waiters ≡ ws
    → Once ws
    → Emptied e (turns (length ws) cancel_next e) ws
unfolding turns pending cancel_first cancel_next
turns-Emptied [] e h once = record {
  posted = sym (append-nil e.posted);
  taken = refl;
  waiters = h;
  keeps = λ v k. k;
  tells = λ v k. absurd (omega (arith, k));
}
turns-Emptied (w ∷ ws) e h once =
    subst (λ l. Emptied e (turns (length ws) cancel_next (cancel_first e l)) (w ∷ ws)) (sym h)
      (cancel-Emptied e _ w ws once
        (turns-Emptied ws (cancel_first e (w ∷ ws)) refl (tail-Once w ws once)))

-- The destructor has posted the unclaimed waiters in their order, and each will find itself canceled.
pub record Told (e e' : Event) (told : List ℕ) : Type 0 where
  pub posted : e'.posted ≡ e.posted ++ told
  pub waiters : e'.waiters ≡ []
  pub outcome : (v : ℕ) → times v told ≡ 1 → (await_resume e' v).1 ≡ false

-- In every state that a schedule reaches, the destructor with nothing in between posts exactly the
-- waiters that nobody had claimed, in their order, leaves no waiter, and await_resume of each one
-- that it posted reports the cancellation.
pub destroy_event-Told :
    {s : System}
    → Reach s
    → Told s.event (destroy_event s.event) (pending s.event.waiter s.event.waiters)
unfolding destroy_event await_resume
destroy_event-Told {s} reach =
    let v = Reach-Sound reach in
    let d = turns-Emptied s.event.waiters s.event refl (λ u. (v.good u).alone) in
    record { posted = d.posted; waiters = d.waiters; outcome = λ u h. ap not (d.tells u h) }
