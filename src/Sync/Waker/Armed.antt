-- ===== src/Sync/Waker/Armed.antt =====
-- What holds of the waker and its waiter in every state that a schedule reaches.
use capy.Base.{ℕ, ◌+◌, ◌≡◌, sym, ap, ◌∙◌, Bool, true, false, not, Option, none, some, ◌⊎◌, inl, inr}
use capy.Sync.Counts.{flag, times}
use capy.Sync.Waker.{Slot, empty, token, armed, arming, Waker, Awaiter, wait_awaiter, is_token}
use capy.Sync.Waker.System.{
  System, Phase, idle, looked, registered, arming_, waiting, Claimant, waker_call, stop_callback,
  destructor,
}

abbrev pub Once : Waker → Type 0
Once k = (v : ℕ) → times v k.posted ≡ flag (k.awaiter v).claimed_

abbrev pub is_free : Slot → Bool
is_free empty = true
is_free token = true
is_free armed = false
is_free arming = false

abbrev pub wakes_now : Claimant → ℕ
wakes_now waker_call = 1
wakes_now stop_callback = 0
wakes_now destructor = 0

abbrev pub listed : Awaiter
listed = record wait_awaiter { active_ = true; published_ = true }

-- Where the waiter stands: the phase, who has claimed it, and the number of wake-ups that it holds.
-- A waiter that is suspended is armed, so that the next call of `wake` claims it, or it is claimed and
-- about to be posted, or it is posted.
pub data Stands (k : Waker) (p : Phase) (o : Option (ℕ × Claimant)) (n : ℕ) : Type 0 where
  rests : p ≡ idle → o ≡ none → n ≡ 0 → is_free k.st_ ≡ true → Stands k p o n
  looking :
      (w : ℕ)
      → p ≡ looked w
      → o ≡ none
      → n ≡ 0
      → is_free k.st_ ≡ true
      → k.awaiter w ≡ wait_awaiter
      → Stands k p o n
  ready :
      (w : ℕ)
      → p ≡ registered w
      → o ≡ none
      → n ≡ 0
      → is_free k.st_ ≡ true
      → k.waiter_ ≡ w
      → k.awaiter w ≡ listed
      → Stands k p o n
  entering :
      (w : ℕ)
      → p ≡ arming_ w
      → o ≡ none
      → n ≡ 0
      → k.st_ ≡ arming
      → k.waiter_ ≡ w
      → k.awaiter w ≡ listed
      → Stands k p o n
  sleeps :
      (w : ℕ)
      → p ≡ waiting w
      → o ≡ none
      → n ≡ 0
      → k.st_ ≡ armed
      → k.waiter_ ≡ w
      → k.awaiter w ≡ listed
      → Stands k p o n
  caught :
      (w : ℕ) (c : Claimant)
      → p ≡ waiting w
      → o ≡ some (w, c)
      → n ≡ wakes_now c
      → is_free k.st_ ≡ true
      → k.awaiter w ≡ listed
      → Stands k p o n
  woken :
      (w : ℕ)
      → p ≡ waiting w
      → o ≡ none
      → n ≡ flag (not (k.awaiter w).canceled_)
      → is_free k.st_ ≡ true
      → (k.awaiter w).claimed_ ≡ true
      → Stands k p o n

-- No awaiter is posted twice, and each call of `wake` that took effect has woken a wait, wakes the one
-- that stands there, is latched, or woke a waiter that was destroyed.
pub record Faithful (s : System) : Type 0 where
  pub once : Once s.waker
  pub holds : ℕ
  pub stands : Stands s.waker s.phase s.owed holds
  pub kept : s.won ≡ s.got + s.dropped + holds + flag (is_token s.waker.st_)

-- What stands in each phase.
pub at_idle :
    {k : Waker} {p : Phase} {o : Option (ℕ × Claimant)} {n : ℕ}
    → Stands k p o n
    → p ≡ idle
    → (o ≡ none) × (n ≡ 0) × (is_free k.st_ ≡ true)
at_idle (rests a b c d) h = (b, c, d)
at_idle (looking w a b c d e) h = cc (a, h)
at_idle (ready w a b c d e f) h = cc (a, h)
at_idle (entering w a b c d e f) h = cc (a, h)
at_idle (sleeps w a b c d e f) h = cc (a, h)
at_idle (caught w x a b c d e) h = cc (a, h)
at_idle (woken w a b c d e) h = cc (a, h)

pub at_looked :
    {k : Waker} {p : Phase} {o : Option (ℕ × Claimant)} {n : ℕ} (v : ℕ)
    → Stands k p o n
    → p ≡ looked v
    → (o ≡ none) × (n ≡ 0) × (is_free k.st_ ≡ true) × (k.awaiter v ≡ wait_awaiter)
at_looked v (rests a b c d) h = cc (a, h)
at_looked {k} v (looking w a b c d e) h =
    let same : v ≡ w = cc (a, h) in (b, c, d, ap k.awaiter same ∙ e)
at_looked v (ready w a b c d e f) h = cc (a, h)
at_looked v (entering w a b c d e f) h = cc (a, h)
at_looked v (sleeps w a b c d e f) h = cc (a, h)
at_looked v (caught w x a b c d e) h = cc (a, h)
at_looked v (woken w a b c d e) h = cc (a, h)

pub at_registered :
    {k : Waker} {p : Phase} {o : Option (ℕ × Claimant)} {n : ℕ} (v : ℕ)
    → Stands k p o n
    → p ≡ registered v
    → (o ≡ none) × (n ≡ 0) × (is_free k.st_ ≡ true) × (k.waiter_ ≡ v) × (k.awaiter v ≡ listed)
at_registered v (rests a b c d) h = cc (a, h)
at_registered v (looking w a b c d e) h = cc (a, h)
at_registered {k} v (ready w a b c d e f) h =
    let same : v ≡ w = cc (a, h) in (b, c, d, e ∙ sym same, ap k.awaiter same ∙ f)
at_registered v (entering w a b c d e f) h = cc (a, h)
at_registered v (sleeps w a b c d e f) h = cc (a, h)
at_registered v (caught w x a b c d e) h = cc (a, h)
at_registered v (woken w a b c d e) h = cc (a, h)

pub at_arming :
    {k : Waker} {p : Phase} {o : Option (ℕ × Claimant)} {n : ℕ} (v : ℕ)
    → Stands k p o n
    → p ≡ arming_ v
    → (o ≡ none) × (n ≡ 0) × (k.st_ ≡ arming) × (k.waiter_ ≡ v) × (k.awaiter v ≡ listed)
at_arming v (rests a b c d) h = cc (a, h)
at_arming v (looking w a b c d e) h = cc (a, h)
at_arming v (ready w a b c d e f) h = cc (a, h)
at_arming {k} v (entering w a b c d e f) h =
    let same : v ≡ w = cc (a, h) in (b, c, d, e ∙ sym same, ap k.awaiter same ∙ f)
at_arming v (sleeps w a b c d e f) h = cc (a, h)
at_arming v (caught w x a b c d e) h = cc (a, h)
at_arming v (woken w a b c d e) h = cc (a, h)

pub at_armed :
    {k : Waker} {p : Phase} {o : Option (ℕ × Claimant)} {n : ℕ}
    → Stands k p o n
    → k.st_ ≡ armed
    → (p ≡ waiting k.waiter_) × (n ≡ 0) × (k.awaiter k.waiter_ ≡ listed)
at_armed (rests a b c d) h = cc (d, ap is_free h)
at_armed (looking w a b c d e) h = cc (d, ap is_free h)
at_armed (ready w a b c d e f) h = cc (d, ap is_free h)
at_armed (entering w a b c d e f) h = cc (d, h)
at_armed {k} (sleeps w a b c d e f) h = (a ∙ ap waiting (sym e), c, ap k.awaiter e ∙ f)
at_armed (caught w x a b c d e) h = cc (d, ap is_free h)
at_armed (woken w a b c d e) h = cc (d, ap is_free h)

pub at_owed :
    {k : Waker} {p : Phase} {o : Option (ℕ × Claimant)} {n : ℕ} (v : ℕ) (x : Claimant)
    → Stands k p o n
    → o ≡ some (v, x)
    → (p ≡ waiting v) × (n ≡ wakes_now x) × (is_free k.st_ ≡ true) × (k.awaiter v ≡ listed)
at_owed v x (rests a b c d) h = cc (b, h)
at_owed v x (looking w a b c d e) h = cc (b, h)
at_owed v x (ready w a b c d e f) h = cc (b, h)
at_owed v x (entering w a b c d e f) h = cc (b, h)
at_owed v x (sleeps w a b c d e f) h = cc (b, h)
at_owed {k} v x (caught w y a b c d e) h =
    let same : v ≡ w = cc (b, h) in
    let who : x ≡ y = cc (b, h) in
    (a ∙ ap waiting (sym same), c ∙ ap wakes_now (sym who), d, ap k.awaiter same ∙ e)
at_owed v x (woken w a b c d e) h = cc (b, h)

pub at_posted :
    {k : Waker} {p : Phase} {o : Option (ℕ × Claimant)} {n : ℕ} (v : ℕ)
    → Stands k p o n
    → p ≡ waiting v
    → (k.awaiter v).claimed_ ≡ true
    → (o ≡ none) × (n ≡ flag (not (k.awaiter v).canceled_)) × (is_free k.st_ ≡ true)
at_posted v (rests a b c d) h t = cc (a, h)
at_posted v (looking w a b c d e) h t = cc (a, h)
at_posted v (ready w a b c d e f) h t = cc (a, h)
at_posted v (entering w a b c d e f) h t = cc (a, h)
at_posted {k} v (sleeps w a b c d e f) h t =
    let same : v ≡ w = cc (a, h) in cc (t, ap (λ x. x.claimed_) (ap k.awaiter same ∙ f))
at_posted {k} v (caught w x a b c d e) h t =
    let same : v ≡ w = cc (a, h) in cc (t, ap (λ x. x.claimed_) (ap k.awaiter same ∙ e))
at_posted {k} v (woken w a b c d e) h t =
    let same : v ≡ w = cc (a, h) in
    (b, c ∙ ap (λ u. flag (not (k.awaiter u).canceled_)) (sym same), d)

pub at_left :
    {k : Waker} {p : Phase} {o : Option (ℕ × Claimant)} {n : ℕ} (v : ℕ)
    → Stands k p o n
    → p ≡ waiting v
    → o ≡ none
    → ((k.st_ ≡ armed) × (k.awaiter v ≡ listed) × (n ≡ 0))
      ⊎ (((k.awaiter v).claimed_ ≡ true)
          × (is_free k.st_ ≡ true)
          × (n ≡ flag (not (k.awaiter v).canceled_)))
at_left v (rests a b c d) h t = cc (a, h)
at_left v (looking w a b c d e) h t = cc (a, h)
at_left v (ready w a b c d e f) h t = cc (a, h)
at_left v (entering w a b c d e f) h t = cc (a, h)
at_left {k} v (sleeps w a b c d e f) h t =
    let same : v ≡ w = cc (a, h) in inl (d, ap k.awaiter same ∙ f, c)
at_left v (caught w x a b c d e) h t = cc (b, t)
at_left {k} v (woken w a b c d e) h t =
    let same : v ≡ w = cc (a, h) in
    inr (
      ap (λ u. (k.awaiter u).claimed_) same ∙ e,
      d,
      c ∙ ap (λ u. flag (not (k.awaiter u).canceled_)) (sym same),
    )
