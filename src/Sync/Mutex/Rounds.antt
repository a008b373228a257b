-- ===== src/Sync/Mutex/Rounds.antt =====
-- The rounds of `unlock`.
use capy.Base.{
  ℕ, zero, suc, ◌+◌, ◌≡◌, refl, sym, ap, subst, Bool, true, false, List, [], ◌∷◌, ◌++◌, Option,
  none, some, ◌==◌, length,
}
use capy.Sync.Mutex.{
  Awaiter, Mutex, update, grant_loop, grant_done, grant_next, Fate, kept, destroyed, mutex_gone,
  Unlocked, done, gone, out_of_fuel, forget, hand_over, unlock_loop, unlock,
}
use capy.Sync.Counts.{flag, times, times-snoc, plus_zero}
use capy.Sync.Mutex.Turns.{held, given, Good, update-cases}
use capy.Sync.Mutex.Grants.{Outcome, grant_loop-Outcome, handed-Good, opened-Good, forgotten-Good}

abbrev pub GoodAt : Mutex → (ℕ → Bool) → (ℕ → Bool) → ℕ → Type 0
GoodAt m seen left v =
    Good m.locked (m.awaiter v) (seen v) (left v) (times v m.posted) (times v m.waiters)
      (given v m.granted_to)

-- Nobody holds the lock of a locked mutex, and nobody is handed it.
pub record Ready (m : Mutex) (seen left : ℕ → Bool) : Type 0 where
  pub locked : m.locked ≡ true
  pub free : m.granted_to ≡ none
  pub good : (v : ℕ) → GoodAt m seen left v

-- Somebody is handed it, or the mutex is unlocked.
pub record Passed (m : Mutex) (seen left : ℕ → Bool) : Type 0 where
  pub owner : held m.granted_to ≡ flag m.locked
  pub good : (v : ℕ) → GoodAt m seen left v

module _ (ex : ℕ → Fate) (seen left : ℕ → Bool) where
  Ends : Unlocked → Type 0
  Ends r = (m : Mutex) → r ≡ done m → Passed m seen left

  ready-Good :
      (m : Mutex) (v : ℕ)
      → Ready m seen left
      → Good true (m.awaiter v) (seen v) (left v) (times v m.posted) (times v m.waiters) 0
  ready-Good m v r =
      subst (λ l. Good l (m.awaiter v) (seen v) (left v) (times v m.posted) (times v m.waiters) 0)
        r.locked
        (subst
          (λ o.
            Good m.locked (m.awaiter v) (seen v) (left v) (times v m.posted) (times v m.waiters)
              (given v o))
          r.free (r.good v))

  done-Ends : (m : Mutex) → Passed m seen left → Ends (done m)
  unfolding Ends
  done-Ends m p m' e = subst (λ x. Passed x seen left) (cc e) p

  open_round :
      (m : Mutex) (f : ℕ → Awaiter) (ws : List ℕ)
      → Ready m seen left
      → ((v : ℕ) → Outcome m.awaiter m.waiters v (f, ws, none))
      → Passed (record m { awaiter = f; waiters = ws; locked = false }) seen left
  unfolding Outcome
  open_round m f ws r h = record {
    owner = ap held r.free;
    good = λ v.
        subst (λ o. Good false (f v) (seen v) (left v) (times v m.posted) (times v ws) (given v o))
          (sym r.free) (opened-Good (ready-Good m v r) (h v) refl refl);
  }

  kept_round :
      (m : Mutex) (f : ℕ → Awaiter) (ws : List ℕ) (w : ℕ)
      → Ready m seen left
      → ((v : ℕ) → Outcome m.awaiter m.waiters v (f, ws, some w))
      → Passed
          (record m { awaiter = f; waiters = ws; granted_to = some w; posted = m.posted ++ w ∷ [] })
          seen
          left
  unfolding Outcome
  kept_round m f ws w r h = record {
    owner = ap flag (sym r.locked);
    good = λ v.
        subst
          (λ l.
            Good l (f v) (seen v) (left v) (times v (m.posted ++ w ∷ [])) (times v ws)
              (flag (v == w)))
          (sym r.locked) (rw (times-snoc v w m.posted) (handed-Good (ready-Good m v r) (h v)));
  }

  forgotten_round :
      (m : Mutex) (f : ℕ → Awaiter) (ws : List ℕ) (w : ℕ)
      → Ready m seen left
      → ((v : ℕ) → Outcome m.awaiter m.waiters v (f, ws, some w))
      → Ready (forget (record m { awaiter = f; waiters = ws; granted_to = some w }) w) seen left
  unfolding Outcome forget
  forgotten_round m f ws w r h = record {
    locked = r.locked;
    free = refl;
    good = λ v.
        subst
          (λ l.
            Good l (update f w (record (f w) { active = false; granted = false }) v) (seen v)
              (left v) (times v m.posted) (times v ws) 0)
          (sym r.locked)
          (update-cases f w (λ a. record a { active = false; granted = false }) v
            (λ a n.
              Good true (f v) (seen v) (left v) (times v m.posted + n) (times v ws) n
              → Good true a (seen v) (left v) (times v m.posted) (times v ws) 0)
            (λ _ g. forgotten-Good 1 g refl)
            (λ _ g.
              subst (λ n. Good true (f v) (seen v) (left v) n (times v ws) 0)
                (plus_zero (times v m.posted)) g)
            (handed-Good (ready-Good m v r) (h v)));
  }

  gone-Ends : Ends gone
  unfolding Ends
  gone-Ends m e = absurd (cc e)

  out_of_fuel-Ends : Ends out_of_fuel
  unfolding Ends
  out_of_fuel-Ends m e = absurd (cc e)

  -- One round, whose next rounds end well.
  round-Ends :
      (m : Mutex) (again : Mutex → Unlocked) (o : (ℕ → Awaiter) × List ℕ × Option ℕ)
      → Ready m seen left
      → ((v : ℕ) → Outcome m.awaiter m.waiters v o)
      → ((m' : Mutex) → Ready m' seen left → Ends (again m'))
      → Ends (hand_over ex again (grant_done m o))
  unfolding hand_over grant_done
  round-Ends m again (f, ws, none) r h next = done-Ends _ (open_round m f ws r h)
  round-Ends m again (f, ws, some w) r h next =
      elim (ex w)
        as (λ x. Ends (elim x [
          | kept ↦ done (record m {
            awaiter = f;
            waiters = ws;
            granted_to = some w;
            posted = m.posted ++ w ∷ [];
          })
          | destroyed ↦
              again (forget (record m { awaiter = f; waiters = ws; granted_to = some w }) w)
          | mutex_gone ↦ gone
        ])) [
          | kept ↦ done-Ends _ (kept_round m f ws w r h)
          | destroyed ↦ next _ (forgotten_round m f ws w r h)
          | mutex_gone ↦ gone-Ends
        ]

  unlock_loop-Ends : (fuel : ℕ) (m : Mutex) → Ready m seen left → Ends (unlock_loop ex fuel m)
  unfolding unlock_loop grant_next
  unlock_loop-Ends zero m r = out_of_fuel-Ends
  unlock_loop-Ends (suc fuel) m r =
      round-Ends m (unlock_loop ex fuel) (grant_loop m.awaiter m.waiters) r
        (grant_loop-Outcome m.awaiter m.waiters) (unlock_loop-Ends fuel)

  pub unlock-Passed :
      (m m' : Mutex) → Ready m seen left → unlock ex m ≡ done m' → Passed m' seen left
  unfolding unlock Ends
  unlock-Passed m m' r = unlock_loop-Ends (suc (length m.waiters)) m r m'
