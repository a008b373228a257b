-- ===== src/Sync/Waker/Kept.antt =====
-- The steps of the waker.
use capy.Base.{
  ℕ, ◌+◌, ◌≡◌, refl, sym, ap, subst, ◌∙◌, arith, Bool, true, false, not, none, ◌==◌, if◌then◌else◌,
  Bool-cases, inl, inr,
}
use capy.Sync.Counts.{flag, times, times-snoc, is_it}
use capy.Sync.Waker.{
  Slot, empty, token, armed, arming, Waker, Awaiter, wait_awaiter, set_awaiter, set_slot, post,
  is_token, is_empty, await_ready, suspend_stopped, register, arm, publish, await_resume,
}
use capy.Sync.Waker.System.{System, idle, looked, registered, arming_, waiting, finished}
use capy.Sync.Waker.Armed.{
  Once, is_free, rests, ready, entering, sleeps, Faithful, at_idle, at_looked, at_registered,
  at_arming,
}

pub set-Once :
    (k : Waker) (w : ℕ) (a : Awaiter)
    → Once k
    → a.claimed_ ≡ (k.awaiter w).claimed_
    → Once (set_awaiter k w a)
set-Once k w a h e v = elim (Bool-cases (v == w)) [
  | inl y ↦
      let eq : v ≡ w = ground (arith, y) in
      h v
      ∙ ap (λ u. flag (k.awaiter u).claimed_) eq
      ∙ ap flag (sym e)
      ∙ ap (λ c. flag (if c then a else k.awaiter v).claimed_) (sym y)
  | inr n ↦ h v ∙ ap (λ c. flag (if c then a else k.awaiter v).claimed_) (sym n)
]

pub post-Once :
    (k : Waker) (w : ℕ) (a : Awaiter)
    → Once k
    → (k.awaiter w).claimed_ ≡ false
    → a.claimed_ ≡ true
    → Once (post k w a)
unfolding post
post-Once k w a h e t v = times-snoc v w k.posted ∙ elim (Bool-cases (v == w)) [
  | inl y ↦
      let eq : v ≡ w = ground (arith, y) in
      let before : times v k.posted ≡ 0 =
        h v ∙ ap (λ u. flag (k.awaiter u).claimed_) eq ∙ ap flag e in
      rw y (omega (arith, before, ap flag t))
  | inr n ↦ rw n (omega (arith, h v))
]

pub finish-Faithful :
    (s : System) (k : Waker) (w : ℕ)
    → Once k
    → s.owed ≡ none
    → is_free k.st_ ≡ true
    → s.won ≡ flag (not (k.awaiter w).canceled_) + s.got + s.dropped + flag (is_token k.st_)
    → Faithful (finished s (await_resume k w))
unfolding await_resume
finish-Faithful s k w once nobody free kept = record {
  once = set-Once k w _ once refl;
  holds = 0;
  stands = rests refl nobody refl free;
  kept = omega (arith, kept);
}

-- A branch of a call by the flag that it reports.
abbrev readied : Waker → Bool → Waker × Bool
readied k b = if b then (set_slot k empty, true) else (k, false)

passed-ready :
    (k : Waker)
    → (await_ready k).1 ≡ true
    → ((await_ready k).0 ≡ set_slot k empty) × (is_token k.st_ ≡ true)
unfolding await_ready
passed-ready k h = elim (Bool-cases (is_token k.st_)) [
  | inl e ↦ (ap (λ b. (readied k b).0) e, e)
  | inr e ↦ cc (h, e)
]

pub pass-Faithful :
    (s : System) (w : ℕ)
    → Faithful s
    → s.phase ≡ idle
    → s.waker.awaiter w ≡ wait_awaiter
    → (await_ready s.waker).1 ≡ true
    → Faithful (finished s (await_resume (await_ready s.waker).0 w))
pass-Faithful s w v h new there =
    let (nobody, n, free) = at_idle v.stands h in
    let (e, t) = passed-ready s.waker there in
    subst (λ k. Faithful (finished s (await_resume k w))) (sym e)
      (finish-Faithful s (set_slot s.waker empty) w v.once nobody refl
        (omega (arith, v.kept, n, ap flag t, ap (λ a. flag (not a.canceled_)) new)))

pub refuse-Faithful :
    (s : System) (w : ℕ)
    → Faithful s
    → s.phase ≡ looked w
    → Faithful (finished s (await_resume (suspend_stopped s.waker w) w))
unfolding suspend_stopped
refuse-Faithful s w v h =
    let (nobody, n, free, new) = at_looked w v.stands h in
    let told : ((suspend_stopped s.waker w).awaiter w).canceled_ ≡ true =
      ap
        (λ c.
          (if c
            then record (s.waker.awaiter w) { canceled_ = true }
            else s.waker.awaiter w).canceled_)
        (is_it w w refl) in
    finish-Faithful s (suspend_stopped s.waker w) w (set-Once s.waker w _ v.once refl) nobody free
      (omega (arith, v.kept, n, ap (λ b. flag (not b)) told))

pub register-Faithful :
    (s : System) (w : ℕ)
    → Faithful s
    → s.phase ≡ looked w
    → Faithful (record s { waker = register s.waker w; phase = registered w })
unfolding register
register-Faithful s w v h =
    let (nobody, n, free, new) = at_looked w v.stands h in
    record {
      once = set-Once (record s.waker { waiter_ = w }) w _ v.once refl;
      holds = 0;
      stands = ready w refl nobody refl free refl (
          ap
            (λ c.
              if c
              then record (s.waker.awaiter w) { active_ = true; published_ = true }
              else s.waker.awaiter w)
            (is_it w w refl)
          ∙ ap (λ (a : Awaiter). record a { active_ = true; published_ = true }) new);
      kept = omega (arith, v.kept, n);
    }

abbrev armed_or : Waker → ℕ → Bool → Waker × Bool
armed_or k w b = if b then (set_slot k arming, true) else (
  set_slot (set_awaiter k w (record (k.awaiter w) { active_ = false; published_ = false })) empty,
  false,
)

armed-slot : (k : Waker) (w : ℕ) → (arm k w).1 ≡ is_empty k.st_
unfolding arm
armed-slot k w = elim (is_empty k.st_) as (λ b. (armed_or k w b).1 ≡ b) [
  | true ↦ refl
  | false ↦ refl
]

empty_token : (t : Slot) → is_empty t ≡ true → is_token t ≡ false
empty_token empty h = refl
empty_token token h = cc h
empty_token armed h = refl
empty_token arming h = refl

free_token : (t : Slot) → is_free t ≡ true → is_empty t ≡ false → is_token t ≡ true
free_token empty h e = cc e
free_token token h e = refl
free_token armed h e = h
free_token arming h e = h

pub arm-Faithful :
    (s : System) (w : ℕ)
    → Faithful s
    → s.phase ≡ registered w
    → (arm s.waker w).1 ≡ true
    → Faithful (record s { waker = (arm s.waker w).0; phase = arming_ w })
unfolding arm
arm-Faithful s w v h hit =
    let (nobody, n, free, it, new) = at_registered w v.stands h in
    let e = sym (armed-slot s.waker w) ∙ hit in
    subst (λ b. Faithful (record s { waker = (armed_or s.waker w b).0; phase = arming_ w })) (sym e)
      record {
        once = v.once;
        holds = 0;
        stands = entering w refl nobody refl refl it new;
        kept = omega (arith, v.kept, n, ap flag (empty_token s.waker.st_ e));
      }

pub take-Faithful :
    (s : System) (w : ℕ)
    → Faithful s
    → s.phase ≡ registered w
    → (arm s.waker w).1 ≡ false
    → Faithful (finished s (await_resume (arm s.waker w).0 w))
unfolding arm
take-Faithful s w v h miss =
    let (nobody, n, free, it, new) = at_registered w v.stands h in
    let e = sym (armed-slot s.waker w) ∙ miss in
    let calm : ((armed_or s.waker w false).0.awaiter w).canceled_ ≡ false =
      ap
        (λ c.
          (if c
            then record (s.waker.awaiter w) { active_ = false; published_ = false }
            else s.waker.awaiter w).canceled_)
        (is_it w w refl)
      ∙ ap (λ a. a.canceled_) new in
    subst (λ b. Faithful (finished s (await_resume (armed_or s.waker w b).0 w))) (sym e)
      (finish-Faithful s (armed_or s.waker w false).0 w (set-Once s.waker w _ v.once refl) nobody
        refl
        (omega
          (arith, v.kept, n, ap (λ b. flag (not b)) calm, ap flag (free_token s.waker.st_ free e))))

pub suspend-Faithful :
    (s : System) (w : ℕ)
    → Faithful s
    → s.phase ≡ arming_ w
    → Faithful (record s { waker = (publish s.waker w false).0; phase = waiting w })
unfolding publish
suspend-Faithful s w v h =
    let (nobody, n, at_, it, new) = at_arming w v.stands h in
    record {
      once = v.once;
      holds = 0;
      stands = sleeps w refl nobody refl refl it new;
      kept = omega (arith, v.kept, n, ap (λ t. flag (is_token t)) at_);
    }

pub stop_arming-Faithful :
    (s : System) (w : ℕ)
    → Faithful s
    → s.phase ≡ arming_ w
    → Faithful (finished s (await_resume (publish s.waker w true).0 w))
unfolding publish
stop_arming-Faithful s w v h =
    let (nobody, n, at_, it, new) = at_arming w v.stands h in
    let told : ((publish s.waker w true).0.awaiter w).canceled_ ≡ true =
      ap
        (λ c.
          (if c
            then record (s.waker.awaiter w) { published_ = false; canceled_ = true }
            else s.waker.awaiter w).canceled_)
        (is_it w w refl) in
    finish-Faithful s (publish s.waker w true).0 w (set-Once s.waker w _ v.once refl) nobody refl
      (omega (arith, v.kept, n, ap (λ b. flag (not b)) told, ap (λ t. flag (is_token t)) at_))
