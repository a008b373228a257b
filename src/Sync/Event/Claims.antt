-- ===== src/Sync/Event/Claims.antt =====
-- Whom `claim_all` takes.
use capy.Base.{
  ℕ, ◌+◌, ◌≤◌, ◌≡◌, refl, sym, ap, subst, ◌⊎◌, ◌∙◌, arith, Bool, true, false, List, [], ◌∷◌, ◌==◌,
  if◌then◌else◌, Bool-cases, inl, inr,
}
use capy.Sync.Counts.{flag, flag_le, times, times-if}
use capy.Sync.Event.{Waiter, modify, claim, claim_loop}

-- A change of one awaiter, seen from any awaiter.
pub modify-cases {ℓ} :
    (f : ℕ → Waiter) (w : ℕ) (g : Waiter → Waiter) (v : ℕ) (P : Waiter → ℕ → Type ℓ)
    → (v ≡ w → P (g (f v)) 1)
    → ((v == w) ≡ false → P (f v) 0)
    → P (modify f w g v) (flag (v == w))
unfolding modify
modify-cases f w g v P h k = elim (Bool-cases (v == w)) [
  | inl e ↦ rw e (h (ground (arith, e)))
  | inr e ↦ rw e (k e)
]

-- What `claim_loop` does to an awaiter that was `a` and is `b` then: it waited `waiting` times, and
-- stands `n` times in what was taken.
pub record Claimed (a b : Waiter) (waiting n : ℕ) : Type 0 where
  pub count : flag b.claimed ≡ flag a.claimed + n
  pub few : n ≤ waiting
  pub all : (waiting ≡ 0) ⊎ (b.claimed ≡ true)
  pub canceled : b.canceled ≡ a.canceled
  pub active : b.active ≡ a.active
  pub linked : flag b.linked ≤ flag a.linked + flag b.claimed

one-true : (b : Bool) (n : ℕ) → flag b ≡ 1 + n → b ≡ true
one-true true n h = refl
one-true false n h = absurd (omega (arith, h))

untouched : (a b : Waiter) (here n : ℕ) → Claimed a b here n → Claimed a b (0 + here) (0 + n)
untouched a b here n h = record {
  count = omega (arith, h.count);
  few = omega (arith, h.few);
  all = elim h.all [ inl e ↦ inl (omega (arith, e)) | inr e ↦ inr e ];
  canceled = h.canceled;
  active = h.active;
  linked = h.linked;
}

untouched_all : (a b : Waiter) (here n : ℕ) → Claimed a b here n → Claimed a b (0 + here) n
untouched_all a b here n h = subst (Claimed a b (0 + here)) (omega arith) (untouched a b here n h)

claimed_again :
    (a b : Waiter) (here n : ℕ)
    → Claimed (claim a) b here n
    → a.claimed ≡ true
    → Claimed a b (1 + here) n
claimed_again a b here n h e = record {
  count = h.count ∙ ap (λ c. flag c + n) (sym e);
  few = omega (arith, h.few);
  all = inr (one-true b.claimed n h.count);
  canceled = h.canceled;
  active = h.active;
  linked = omega (arith, h.count, ap flag (one-true b.claimed n h.count), flag_le b.linked);
}

claimed_now :
    (a b : Waiter) (here n : ℕ)
    → Claimed (claim a) b here n
    → a.claimed ≡ false
    → Claimed a b (1 + here) (1 + n)
claimed_now a b here n h e = record {
  count = omega (arith, h.count, ap flag e);
  few = omega (arith, h.few);
  all = inr (one-true b.claimed n h.count);
  canceled = h.canceled;
  active = h.active;
  linked = omega (arith, h.count, ap flag (one-true b.claimed n h.count), flag_le b.linked);
}

pub claim_loop-Claimed :
    (f : ℕ → Waiter) (ws : List ℕ) (v : ℕ)
    → Claimed (f v) ((claim_loop f ws).0 v) (times v ws) (times v (claim_loop f ws).1)
unfolding claim_loop
claim_loop-Claimed f [] v = record {
  count = omega arith;
  few = omega arith;
  all = inl refl;
  canceled = refl;
  active = refl;
  linked = omega arith;
}
claim_loop-Claimed f (w ∷ ws) v =
    let (g, into) = claim_loop (modify f w claim) ws in
    let old = (f w).claimed in
    subst (Claimed (f v) (g v) (flag (v == w) + times v ws)) (sym (times-if v old into (w ∷ into)))
      (modify-cases f w claim v
        (λ a n.
          Claimed a (g v) (times v ws) (times v into)
          → Claimed (f v) (g v) (n + times v ws) (if old then times v into else n + times v into))
        (λ e h. elim (Bool-cases old) [
          | inl c ↦ rw c (
              claimed_again (f v) (g v) (times v ws) (times v into) h
                (ap (λ u. (f u).claimed) e ∙ c))
          | inr c ↦ rw c (
              claimed_now (f v) (g v) (times v ws) (times v into) h (ap (λ u. (f u).claimed) e ∙ c))
        ])
        (λ e h. elim (Bool-cases old) [
          | inl c ↦ rw c (untouched_all (f v) (g v) (times v ws) (times v into) h)
          | inr c ↦ rw c (untouched (f v) (g v) (times v ws) (times v into) h)
        ])
        (claim_loop-Claimed (modify f w claim) ws v))
