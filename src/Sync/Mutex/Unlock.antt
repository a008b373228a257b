-- ===== src/Sync/Mutex/Unlock.antt =====
-- Whom `unlock` hands the lock to.
use capy.Base.{
  ℕ, zero, suc, ◌<◌, ◌≡◌, refl, sym, ap, ◌∙◌, inl, inr, Bool, true, false, List, [], ◌∷◌, ◌++◌,
  Option, none, some, arith, ◌==◌, if◌then◌else◌, Bool-cases, length, has, Distinct, append-nil,
  ◌≢◌, ◌⊎◌,
}
use capy.Sync.Mutex.{
  Awaiter, Mutex, Fate, kept, destroyed, mutex_gone, Unlocked, done, update, grant_loop, grant_next,
  grant_done, hand_over, forget, unlock_loop, unlock,
}

-- The first waiter that no stop callback has claimed and whose executor keeps it.
unfoldable pub next_owner : (ℕ → Bool) → (ℕ → Fate) → List ℕ → Option ℕ
next_owner claimed ex [] = none
next_owner claimed ex (w ∷ ws) =
    let later = next_owner claimed ex ws in
    if claimed w
    then later
    else elim (ex w) [ kept ↦ some w | destroyed ↦ later | mutex_gone ↦ none ]

abbrev pub held_on : Bool → Option ℕ → Bool
held_on locked none = false
held_on locked (some w) = locked

abbrev pub to_list : Option ℕ → List ℕ
to_list none = []
to_list (some w) = w ∷ []

-- The lock is handed to `next`, which is posted; without one the mutex is unlocked.
pub record Handed (m : Mutex) (next : Option ℕ) (r : Unlocked) : Type 0 where
  pub state : Mutex
  pub returns : r ≡ done state
  pub granted : state.granted_to ≡ next
  pub locked : state.locked ≡ held_on m.locked next
  pub posted : state.posted ≡ m.posted ++ to_list next

abbrev Agrees : Mutex → List ℕ → (ℕ → Bool) → Type 0
Agrees m ws claimed = (v : ℕ) → has v ws ≡ true → (m.awaiter v).claimed ≡ claimed v

Fate-cases : (f : Fate) → (f ≢ mutex_gone) → (f ≡ kept) ⊎ (f ≡ destroyed)
Fate-cases kept h = inl refl
Fate-cases destroyed h = inr refl
Fate-cases mutex_gone h = absurd (h refl)

Agrees-tail :
    (m : Mutex) (w : ℕ) (ws : List ℕ) (claimed : ℕ → Bool)
    → Agrees m (w ∷ ws) claimed
    → Agrees m ws claimed
Agrees-tail m w ws claimed agree v here =
    agree v
      (elim (Bool-cases (v == w)) [ inl same ↦ rw same refl | inr other ↦ rw (other, here) refl ])

Agrees-update :
    (m : Mutex) (w : ℕ) (ws : List ℕ) (claimed : ℕ → Bool) (a : Awaiter) (g : Option ℕ)
    → has w ws ≡ false
    → Agrees m ws claimed
    → Agrees (record m { waiters = ws; awaiter = update m.awaiter w a; granted_to = g }) ws claimed
unfolding update
Agrees-update m w ws claimed a g new agree v here = elim (Bool-cases (v == w)) [
  | inl same ↦ ground (arith, here, new, same)
  | inr other ↦ rw other (agree v here)
]

-- A claimed waiter is dropped from the queue.
grant_next-skip :
    (m : Mutex) (w : ℕ) (ws : List ℕ)
    → (m.awaiter w).claimed ≡ true
    → grant_next (record m { waiters = w ∷ ws })
      ≡ grant_next (record m {
        waiters = ws;
        awaiter = update m.awaiter w (record (m.awaiter w) { in_list = false });
      })
unfolding grant_next grant_loop
grant_next-skip m w ws h = ap (grant_done m) (rw h refl)

-- An unclaimed one is granted the lock.
grant_next-take :
    (m : Mutex) (w : ℕ) (ws : List ℕ)
    → (m.awaiter w).claimed ≡ false
    → grant_next (record m { waiters = w ∷ ws }) ≡ (
      record m {
        waiters = ws;
        granted_to = some w;
        awaiter =
            update m.awaiter w
              (record (m.awaiter w) { in_list = false; claimed = true; granted = true });
      },
      some w,
    )
unfolding grant_next grant_loop grant_done
grant_next-take m w ws h =
    ap
      (λ b. grant_done m (
        if b
        then grant_loop (update m.awaiter w (record (m.awaiter w) { in_list = false })) ws
        else (
          update m.awaiter w
              (record (m.awaiter w) { in_list = false; claimed = true; granted = true }),
          ws,
          some w,
        )))
      h

hand_over-kept :
    (ex : ℕ → Fate) (again : Mutex → Unlocked) (m : Mutex) (w : ℕ)
    → ex w ≡ kept
    → hand_over ex again (m, some w) ≡ done (record m { posted = m.posted ++ w ∷ [] })
unfolding hand_over
hand_over-kept ex again m w h = rw (hand_over, h) refl

hand_over-destroyed :
    (ex : ℕ → Fate) (again : Mutex → Unlocked) (m : Mutex) (w : ℕ)
    → ex w ≡ destroyed
    → hand_over ex again (m, some w) ≡ again (forget m w)
unfolding hand_over
hand_over-destroyed ex again m w h = rw (hand_over, h) refl

module _ (ex : ℕ → Fate) (claimed : ℕ → Bool) (tame : (w : ℕ) → ex w ≢ mutex_gone) where
  unlock_loop-Handed :
      (fuel : ℕ) (m : Mutex) (ws : List ℕ)
      → length ws < fuel
      → Distinct ws
      → Agrees m ws claimed
      → m.granted_to ≡ none
      → Handed m (next_owner claimed ex ws) (unlock_loop ex fuel (record m { waiters = ws }))
  unfolding unlock_loop next_owner forget
  unlock_loop-Handed zero m ws h distinct agree free = absurd (omega arith)
  unlock_loop-Handed (suc fuel) m [] h distinct agree free = record {
    state = record m { waiters = []; locked = false };
    returns = refl;
    granted = free;
    locked = refl;
    posted = sym (append-nil m.posted);
  }
  unlock_loop-Handed (suc fuel) m (w ∷ ws) h distinct agree free =
      let here : has w (w ∷ ws) ≡ true = ground arith in
      let tail = Agrees-tail m w ws claimed agree in
      elim (Bool-cases (claimed w)) [
        | inl skip ↦
            let a = record (m.awaiter w) { in_list = false } in
            let r =
              unlock_loop-Handed (suc fuel) (record m { awaiter = update m.awaiter w a }) ws
                (omega arith) distinct.1
                (Agrees-update m w ws claimed a m.granted_to distinct.0 tail) free in
            rw (skip, grant_next-skip m w ws (agree w here ∙ skip))
              (record {
                state = r.state;
                returns = r.returns;
                granted = r.granted;
                locked = r.locked;
                posted = r.posted;
              })
        | inr take_ ↦
            let b = record (m.awaiter w) { in_list = false; claimed = true; granted = true } in
            let t = record m {
              waiters = ws;
              granted_to = some w;
              awaiter = update m.awaiter w b;
            } in
            rw (take_, grant_next-take m w ws (agree w here ∙ take_))
              (elim (Fate-cases (ex w) (tame w)) [
                | inl keeps ↦
                    rw (hand_over-kept ex (unlock_loop ex fuel) t w keeps, keeps)
                      (record {
                        state = record t { posted = m.posted ++ w ∷ [] };
                        returns = refl;
                        granted = refl;
                        locked = refl;
                        posted = refl;
                      })
                | inr destroys ↦
                    let r =
                      unlock_loop-Handed fuel (forget t w) ws (omega arith) distinct.1
                        (Agrees-update t w ws claimed
                          (record (t.awaiter w) { active = false; granted = false }) none distinct.0
                          (Agrees-update m w ws claimed b (some w) distinct.0 tail))
                        refl in
                    rw (hand_over-destroyed ex (unlock_loop ex fuel) t w destroys, destroys)
                      (record {
                        state = r.state;
                        returns = r.returns;
                        granted = r.granted;
                        locked = r.locked;
                        posted = r.posted;
                      })
              ])
      ]

-- On a mutex in whose queue no awaiter stands twice, where nobody is being handed the lock and no
-- posting destroys the mutex, unlock ends: it hands the lock to the first waiter that no stop
-- callback has claimed and whose continuation its executor keeps, and posts it; without one the
-- mutex is unlocked and nothing is posted.
pub unlock-Handed :
    (ex : ℕ → Fate) (m : Mutex)
    → ((w : ℕ) → ex w ≢ mutex_gone)
    → Distinct m.waiters
    → m.granted_to ≡ none
    → Handed m (next_owner (λ w. (m.awaiter w).claimed) ex m.waiters) (unlock ex m)
unfolding unlock
unlock-Handed ex m tame distinct free =
    unlock_loop-Handed ex (λ w. (m.awaiter w).claimed) tame (suc (length m.waiters)) m m.waiters
      (omega arith) distinct (λ v here. refl) free
