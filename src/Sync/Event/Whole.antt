-- ===== src/Sync/Event/Whole.antt =====
-- A whole call of `set`: who is resumed, in which order, and with what.
use capy.Base.{
  ℕ, ◌+◌, ◌*◌, ◌≤◌, ◌≡◌, refl, sym, ap, subst, ◌∙◌, arith, Bool, true, false, not, List, [], ◌∷◌,
  ◌++◌, inl, inr, ◌==◌, if◌then◌else◌, if-elim, Bool-cases, length, append-nil, append_assoc,
}
use capy.Sync.Event.{
  Waiter, Event, modify, claim, claim_loop, claim_all, begin_set, unlinked, post_first, post_next,
  turns, set, await_resume,
}
use capy.Sync.Event.Claims.{claim_loop-Claimed}
use capy.Sync.Counts.{flag, times}
use capy.Sync.Event.System.{System, Reach}
use capy.Sync.Event.Once.{Reach-Sound}

-- The waiters that nobody has claimed, the first one first.
unfoldable pub pending : (ℕ → Waiter) → List ℕ → List ℕ
pending f [] = []
pending f (w ∷ ws) = let rest = pending f ws in if (f w).claimed then rest else w ∷ rest

abbrev pub Once : List ℕ → Type 0
Once ws = (v : ℕ) → times v ws ≤ 1

modify_other :
    (f : ℕ → Waiter) (w v : ℕ) (g : Waiter → Waiter) → (v == w) ≡ false → modify f w g v ≡ f v
unfolding modify
modify_other f w v g h = ap (λ c. if c then g (f v) else f v) h

flip : (v w : ℕ) → (v == w) ≡ (w == v)
flip v w = ground arith

pub pending-modify :
    (f : ℕ → Waiter) (w : ℕ) (g : Waiter → Waiter) (ws : List ℕ)
    → times w ws ≡ 0
    → pending (modify f w g) ws ≡ pending f ws
unfolding pending
pending-modify f w g [] h = refl
pending-modify f w g (v ∷ vs) h = elim (Bool-cases (w == v)) [
  | inl e ↦ absurd (omega (arith, h, ap flag e))
  | inr e ↦
      let rest = pending-modify f w g vs (omega (arith, h)) in
      rw (modify_other f w v g (flip v w ∙ e), rest) refl
]

pub times-of_Once : (w : ℕ) (ws : List ℕ) → Once (w ∷ ws) → times w ws ≡ 0
times-of_Once w ws h = let self : (w == w) ≡ true = ground arith in omega (arith, h w, ap flag self)

pub tail-Once : (w : ℕ) (ws : List ℕ) → Once (w ∷ ws) → Once ws
tail-Once w ws h v = omega (arith, h v)

claim_loop-pending : (f : ℕ → Waiter) (ws : List ℕ) → Once ws → (claim_loop f ws).1 ≡ pending f ws
unfolding claim_loop pending
claim_loop-pending f [] h = refl
claim_loop-pending f (w ∷ ws) h =
    ap (λ l. if (f w).claimed then l else w ∷ l)
      (claim_loop-pending (modify f w claim) ws (tail-Once w ws h)
        ∙ pending-modify f w claim ws (times-of_Once w ws h))

-- What turns of a loop have posted.
record Drained (e e' : Event) (front back : List ℕ) : Type 0 where
  posted : e'.posted ≡ e.posted ++ front
  taken : e'.taken ≡ back
  waiters : e'.waiters ≡ e.waiters
  set_ : e'.set_ ≡ e.set_
  canceled : (v : ℕ) → (e'.waiter v).canceled ≡ (e.waiter v).canceled

post_first-Drained :
    (w : ℕ) (ws : List ℕ) (e : Event) → Drained e (post_first e (w ∷ ws)) (w ∷ []) ws
unfolding post_first modify
post_first-Drained w ws e = record {
  posted = refl;
  taken = refl;
  waiters = refl;
  set_ = refl;
  canceled = λ v.
      if-elim (λ a. a.canceled ≡ (e.waiter v).canceled) (v == w) (unlinked (e.waiter v))
        (e.waiter v) (λ _. refl) (λ _. refl);
}

post-Drained :
    (w : ℕ) (ws : List ℕ) (e : Event) → e.taken ≡ w ∷ ws → Drained e (post_next e) (w ∷ []) ws
unfolding post_next
post-Drained w ws e h =
    subst (λ l. Drained e (post_first e l) (w ∷ []) ws) (sym h) (post_first-Drained w ws e)

posts-Drained :
    (front back : List ℕ) (e : Event)
    → e.taken ≡ front ++ back
    → Drained e (turns (length front) post_next e) front back
unfolding turns
posts-Drained [] back e h = record {
  posted = sym (append-nil e.posted);
  taken = h;
  waiters = refl;
  set_ = refl;
  canceled = λ v. refl;
}
posts-Drained (w ∷ ws) back e h =
    let one = post-Drained w (ws ++ back) e h in
    let rest = posts-Drained ws back (post_next e) one.taken in
    record {
      posted = rest.posted ∙ ap (λ l. l ++ ws) one.posted ∙ append_assoc e.posted (w ∷ []) ws;
      taken = rest.taken;
      waiters = rest.waiters ∙ one.waiters;
      set_ = rest.set_ ∙ one.set_;
      canceled = λ v. rest.canceled v ∙ one.canceled v;
    }

zero_add_mul : (n k : ℕ) → n * k ≡ 0 → (0 + n) * k ≡ 0
zero_add_mul n k h = ap (λ m. m * k) (omega arith) ∙ h

unit_factor : (n k : ℕ) → n ≡ 1 → n * k ≡ 0 → k ≡ 0
unit_factor n k h e = omega (arith, sym (ap (λ m. m * k) h) ∙ e)

-- Who is pending is not claimed.
pending-open :
    (f : ℕ → Waiter) (ws : List ℕ) (v : ℕ) → times v (pending f ws) * flag (f v).claimed ≡ 0
unfolding pending
pending-open f [] v = omega arith
pending-open f (w ∷ ws) v =
    let rest = pending-open f ws v in
    if-elim (λ l. times v l * flag (f v).claimed ≡ 0) (f w).claimed (pending f ws)
      (w ∷ pending f ws) (λ _. rest)
      (λ open_. elim (Bool-cases (v == w)) [
        | inl e ↦
            let eq : v ≡ w = ground (arith, e) in
            let free : (f v).claimed ≡ false = ap (λ x. (f x).claimed) eq ∙ open_ in
            rw free (omega arith)
        | inr e ↦ rw e (zero_add_mul _ _ rest)
      ])

pending-few : (f : ℕ → Waiter) (ws : List ℕ) (v : ℕ) → times v (pending f ws) ≤ times v ws
unfolding pending
pending-few f [] v = omega arith
pending-few f (w ∷ ws) v =
    if-elim (λ l. times v l ≤ flag (v == w) + times v ws) (f w).claimed (pending f ws)
      (w ∷ pending f ws) (λ _. omega (arith, pending-few f ws v))
      (λ _. omega (arith, pending-few f ws v))

-- `set` has posted the unclaimed waiters in their order, and each will find the event set.
pub record Woken (e e' : Event) (woken : List ℕ) : Type 0 where
  pub posted : e'.posted ≡ e.posted ++ woken
  pub taken : e'.taken ≡ e.taken
  pub waiters : e'.waiters ≡ []
  pub set_ : e'.set_ ≡ true
  pub outcome : (v : ℕ) → times v woken ≡ 1 → (await_resume e' v).1 ≡ true

not_canceled : (b : Bool) → flag b ≡ 0 → not b ≡ true
not_canceled false h = refl
not_canceled true h = absurd (omega (arith, h))

-- In every state that a schedule reaches, a call of set with nothing in between posts exactly the
-- waiters that nobody had claimed, in their order, leaves the event set, without waiters and
-- without any claim that is not posted but those of the calls around it, and await_resume of each
-- one that it posted reports success.
pub set-Woken :
    {s : System} → Reach s → Woken s.event (set s.event) (pending s.event.waiter s.event.waiters)
unfolding set begin_set claim_all await_resume
set-Woken {s} reach =
    let e = s.event in
    let v = Reach-Sound reach in
    let same = claim_loop-pending e.waiter e.waiters (λ u. (v.good u).alone) in
    let d = posts-Drained (claim_loop e.waiter e.waiters).1 e.taken (begin_set e) refl in
    record {
      posted = d.posted ∙ ap (λ l. e.posted ++ l) same;
      taken = d.taken;
      waiters = d.waiters;
      set_ = d.set_;
      outcome = λ u h.
          let g = v.good u in
          let open_ : flag (e.waiter u).claimed ≡ 0 =
            unit_factor _ _ h (pending-open e.waiter e.waiters u) in
          let clean : flag (e.waiter u).canceled ≡ 0 =
            omega (arith, g.quiet, h, pending-few e.waiter e.waiters u, open_) in
          ap not (d.canceled u ∙ (claim_loop-Claimed e.waiter e.waiters u).canceled)
          ∙ not_canceled _ clean;
    }
