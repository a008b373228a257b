-- ===== src/Sync/Mutex/Grants.antt =====
-- The loop of `grant_next`, for one awaiter.
use capy.Base.{
  ℕ, ◌+◌, ◌≤◌, ◌≡◌, refl, sym, ap, subst, ◌∙◌, arith, Bool, true, false, List, [], ◌∷◌, Option,
  some, ◌⊎◌, inl, inr, if◌then◌else◌, Bool-cases,
}
use capy.Sync.Mutex.{Awaiter, update, grant_loop}
use capy.Sync.Counts.{flag, flag_le, times}
use capy.Sync.Mutex.Turns.{held, given, Good, update-cases}

-- An awaiter that was `a` and is `b` after the loop: it waited `n` times, waits `n'` times, and is
-- the one that is granted if `k` is 1; if any is left waiting, `found` is 1.
pub record Granting (a b : Awaiter) (n n' k found : ℕ) : Type 0 where
  pub claimed : flag b.claimed ≡ flag a.claimed + k
  pub granted : flag a.granted ≤ flag a.claimed → flag b.granted ≡ flag a.granted + k
  pub canceled : b.canceled ≡ a.canceled
  pub active : b.active ≡ a.active
  pub few : n' + k ≤ n
  pub linked : n ≤ 1 → n ≤ flag a.in_list → n' ≤ flag b.in_list
  pub rest : (n' ≡ 0) ⊎ (found ≡ 1)

unfoldable pub Outcome : (ℕ → Awaiter) → List ℕ → ℕ → (ℕ → Awaiter) × List ℕ × Option ℕ → Type 0
Outcome f ws v (g, ws', o) = Granting (f v) (g v) (times v ws) (times v ws') (given v o) (held o)

skipped :
    (a b : Awaiter) (n n' k found : ℕ)
    → Granting (record a { in_list = false }) b n n' k found
    → Granting a b (1 + n) n' k found
skipped a b n n' k found h = record {
  claimed = h.claimed;
  granted = h.granted;
  canceled = h.canceled;
  active = h.active;
  few = omega (arith, h.few);
  linked = λ once _. omega (arith, h.few, once);
  rest = h.rest;
}

taken :
    (a : Awaiter) (n : ℕ)
    → a.claimed ≡ false
    → Granting a (record a { in_list = false; claimed = true; granted = true }) (1 + n) n 1 1
taken a n e = record {
  claimed = omega (arith, ap flag e);
  granted = λ h. omega (arith, h, ap flag e);
  canceled = refl;
  active = refl;
  few = omega arith;
  linked = λ once _. omega (arith, once);
  rest = inr refl;
}

passed :
    (a b : Awaiter) (n n' k found : ℕ) → Granting a b n n' k found → Granting a b (0 + n) n' k found
passed a b n n' k found h = subst (λ m. Granting a b m n' k found) (omega arith) h

untouched : (a : Awaiter) (n : ℕ) → Granting a a (0 + n) n 0 1
untouched a n = record {
  claimed = omega arith;
  granted = λ _. omega arith;
  canceled = refl;
  active = refl;
  few = omega arith;
  linked = λ _ h. omega (arith, h);
  rest = inr refl;
}

pub grant_loop-Outcome : (f : ℕ → Awaiter) (ws : List ℕ) (v : ℕ) → Outcome f ws v (grant_loop f ws)
unfolding Outcome grant_loop
grant_loop-Outcome f [] v = record {
  claimed = omega arith;
  granted = λ _. omega arith;
  canceled = refl;
  active = refl;
  few = omega arith;
  linked = λ _ h. h;
  rest = inl refl;
}
grant_loop-Outcome f (w ∷ ws) v =
    let skip = grant_loop (update f w (record (f w) { in_list = false })) ws in
    let take_ : (ℕ → Awaiter) × List ℕ × Option ℕ =
      (update f w (record (f w) { in_list = false; claimed = true; granted = true }), ws, some w) in
    elim (Bool-cases (f w).claimed) [
      | inl e ↦ subst (Outcome f (w ∷ ws) v) (sym (ap (λ c. if c then skip else take_) e)) (
          update-cases f w (λ a. record a { in_list = false }) v
            (λ a n.
              Granting a (skip.0 v) (times v ws) (times v skip.1) (given v skip.2) (held skip.2)
              → Granting (f v) (skip.0 v) (n + times v ws) (times v skip.1) (given v skip.2)
                  (held skip.2))
            (λ _ h. skipped _ _ _ _ _ _ h) (λ _ h. passed _ _ _ _ _ _ h)
            (grant_loop-Outcome (update f w (record (f w) { in_list = false })) ws v))
      | inr e ↦ subst (Outcome f (w ∷ ws) v) (sym (ap (λ c. if c then skip else take_) e)) (
          update-cases f w (λ a. record a { in_list = false; claimed = true; granted = true }) v
            (λ a n. Granting (f v) a (n + times v ws) (times v ws) n 1)
            (λ eq. taken (f v) (times v ws) (ap (λ u. (f u).claimed) eq ∙ e))
            (λ _. untouched (f v) (times v ws)))
    ]

module _ {a b : Awaiter} {seen left : Bool} {p n n' k found : ℕ} (g : Good true a seen left p n 0)
    (h : Granting a b n n' k found) where
  granted_now : flag b.granted ≡ k
  granted_now = omega (arith, h.granted (omega (arith, g.granted)), g.granted)

  -- The lock is handed over, and the awaiter that has it is posted.
  pub handed-Good : Good true b seen left (p + k) n' k
  handed-Good =
      let same : flag b.canceled ≡ flag a.canceled = ap flag h.canceled in
      let armed : flag b.active ≡ flag a.active = ap flag h.active in
      record {
        once = omega (arith, g.once, h.claimed);
        alone = omega (arith, g.alone, h.few);
        linked = h.linked g.alone g.linked;
        granted = granted_now;
        won = omega (arith, h.claimed);
        kept = omega (arith, h.claimed, same, g.quiet, g.kept, h.few, flag_le b.claimed);
        quiet = omega (arith, g.quiet, same, h.claimed, h.few);
        due = omega (arith, g.due, same);
        served = omega (arith, g.alone, h.few);
        known = omega (arith, g.known, same, armed, h.claimed, h.few);
      }

  -- Nobody is left.
  pub opened-Good : found ≡ 0 → k ≡ 0 → Good false b seen left p n' 0
  opened-Good none_found none_given =
      let same : flag b.canceled ≡ flag a.canceled = ap flag h.canceled in
      let armed : flag b.active ≡ flag a.active = ap flag h.active in
      let empty : n' ≡ 0 = elim h.rest [
        | inl e ↦ e
        | inr e ↦ absurd (omega (arith, e, none_found))
      ] in
      record {
        once = omega (arith, g.once, h.claimed);
        alone = omega (arith, empty);
        linked = omega (arith, empty);
        granted = omega (arith, granted_now, none_given);
        won = omega arith;
        kept = omega (arith, flag_le b.canceled);
        quiet = omega (arith, empty, flag_le b.canceled);
        due = omega (arith, g.due, same);
        served = omega (arith, empty);
        known = omega (arith, g.known, same, armed, h.claimed, none_given, empty);
      }

-- The one that was handed the lock is destroyed by its posting.
pub forgotten-Good :
    {a : Awaiter} {seen left : Bool} {p n : ℕ} (k : ℕ)
    → Good true a seen left (p + k) n k
    → (k ≡ 1)
    → Good true (record a { active = false; granted = false }) seen left p n 0
forgotten-Good {a} k g h = record {
  once = omega (arith, g.once);
  alone = g.alone;
  linked = g.linked;
  granted = refl;
  won = omega arith;
  kept = omega (arith, g.kept);
  quiet = g.quiet;
  due = omega (arith, g.once, flag_le a.claimed, h);
  served = g.served;
  known = omega (arith, g.known);
}
