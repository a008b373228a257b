-- ===== src/Sync/Event/Changes.antt =====
-- The calls that change one awaiter: suspension, the stop callback, resumption and destruction.
use capy.Base.{ℕ, ◌+◌, ◌≡◌, ap, ◌∙◌, Bool, true, false, [], ◌∷◌, ◌++◌, if-elim}
use capy.Sync.Mutex.{remove}
use capy.Sync.Event.{
  Waiter, Event, modify, await_ready, refused, enlisted, await_suspend, claim_canceled, cancel,
  unlink, disarm, await_resume, destroy_waiter,
}
use capy.Sync.Event.Claims.{modify-cases}
use capy.Sync.Counts.{times, times-snoc, plus_zero, is_it, times-remove_le, times-remove_other}
use capy.Sync.Event.Turns.{
  Good, refused-Good, enlisted-Good, canceled-Good, disarmed-Good, left-Good,
}
use capy.Sync.Event.System.{saw}

abbrev pub GoodAt : Event → (ℕ → Bool) → ℕ → Type 0
GoodAt e seen v =
    Good (e.waiter v) (seen v) (times v e.posted) (times v e.taken) (times v e.waiters)

-- Each awaiter is as it should be, and nobody waits for an event that is set.
pub record Sound (e : Event) (seen : ℕ → Bool) : Type 0 where
  pub good : (v : ℕ) → GoodAt e seen v
  pub idle : e.set_ ≡ true → e.waiters ≡ []

-- A change of one awaiter's members alone.
module _ (e : Event) (seen : ℕ → Bool) (w : ℕ) (v : Sound e seen) where
  alone-Sound :
      (g : Waiter → Waiter)
      → ((u : ℕ)
          → u ≡ w
          → GoodAt e seen u
          → Good (g (e.waiter u)) (seen u) (times u e.posted) (times u e.taken) (times u e.waiters))
      → Sound (record e { waiter = modify e.waiter w g }) seen
  alone-Sound g h = record {
    good = λ u.
        modify-cases e.waiter w g u
          (λ a n. Good a (seen u) (times u e.posted) (times u e.taken) (times u e.waiters))
          (λ eq. h u eq (v.good u)) (λ _. v.good u);
    idle = v.idle;
  }

  disarm-Sound : Sound (record e { waiter = modify e.waiter w disarm }) seen
  disarm-Sound = alone-Sound disarm (λ u eq g. disarmed-Good g)

  unlink-Sound : Sound (unlink e w) seen
  unfolding unlink
  unlink-Sound = record {
    good = λ u.
        modify-cases e.waiter w (λ a. record a { active = false; linked = false }) u
          (λ a n.
            Good a (seen u) (times u e.posted) (times u (remove w e.taken))
              (times u (remove w e.waiters)))
          (λ eq.
            left-Good (v.good u) _ _ (times-remove_le u w e.taken) (times-remove_le u w e.waiters))
          (λ other.
            rw (times-remove_other u w e.taken other, times-remove_other u w e.waiters other)
              (v.good u));
    idle = λ set_. ap (remove w) (v.idle set_);
  }

  pub leave-Sound : Sound (destroy_waiter e w) seen
  unfolding destroy_waiter
  leave-Sound =
      if-elim (λ x. Sound x seen) (e.waiter w).linked (unlink e w)
        (record e { waiter = modify e.waiter w disarm }) (λ _. unlink-Sound) (λ _. disarm-Sound)

  pub resume-Sound : Sound (await_resume e w).0 seen
  unfolding await_resume destroy_waiter
  resume-Sound =
      if-elim (λ x. Sound x seen) (e.waiter w).canceled (destroy_waiter e w)
        (record e { waiter = modify e.waiter w disarm }) (λ _. leave-Sound) (λ _. disarm-Sound)

  pub cancel-Sound : (e.waiter w).active ≡ true → Sound (cancel e w) seen
  unfolding cancel
  cancel-Sound armed =
      let after = record e {
        waiter = modify e.waiter w claim_canceled;
        posted = e.posted ++ w ∷ [];
      } in
      if-elim (λ x. Sound x seen) (e.waiter w).claimed e after (λ _. v)
        (λ open_. record {
          good = λ u. rw (times-snoc u w e.posted) (
              modify-cases e.waiter w claim_canceled u
                (λ a n.
                  Good a (seen u) (times u e.posted + n) (times u e.taken) (times u e.waiters))
                (λ eq.
                  canceled-Good (v.good u) (ap (λ x. (e.waiter x).claimed) eq ∙ open_)
                    (ap (λ x. (e.waiter x).active) eq ∙ armed))
                (λ _. rw (plus_zero (times u e.posted)) (v.good u)));
          idle = v.idle;
        })

  pub suspend-Sound :
      (stop : Bool)
      → await_ready e ≡ false
      → seen w ≡ false
      → Sound (await_suspend e w stop).0 (saw seen w)
  unfolding await_suspend await_ready
  suspend-Sound true clear_ new = record {
    good = λ u.
        modify-cases e.waiter w refused u
          (λ a n. Good a (saw seen w u) (times u e.posted) (times u e.taken) (times u e.waiters))
          (λ eq. rw (is_it u w eq) (refused-Good (v.good u) (ap seen eq ∙ new)))
          (λ other. rw other (v.good u));
    idle = v.idle;
  }
  suspend-Sound false clear_ new = record {
    good = λ u. rw (times-snoc u w e.waiters) (
        modify-cases e.waiter w enlisted u
          (λ a n.
            Good a (saw seen w u) (times u e.posted) (times u e.taken) (times u e.waiters + n))
          (λ eq. rw (is_it u w eq) (enlisted-Good (v.good u) (ap seen eq ∙ new)))
          (λ other. rw (other, plus_zero (times u e.waiters)) (v.good u)));
    idle = λ h. absurd (cc (h, clear_));
  }
