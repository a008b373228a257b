-- ===== src/Sync/Mutex/Turns.antt =====
-- One awaiter through the calls on the mutex.
use capy.Base.{
  ℕ, ◌+◌, ◌*◌, ◌≤◌, ◌≡◌, refl, ap, subst, arith, Bool, true, false, Option, none, some, ◌==◌, inl,
  inr, Bool-cases,
}
use capy.Sync.Mutex.{Awaiter, update}
use capy.Sync.Counts.{flag, flag_le}

abbrev pub held : Option ℕ → ℕ
held none = 0
held (some w) = 1

abbrev pub given : ℕ → Option ℕ → ℕ
given v none = 0
given v (some w) = flag (v == w)

-- An awaiter that stands so often among the posted and the waiters, with 1 for `lock` if it is handed
-- the lock. It is posted once at most, and only when claimed; it waits once at most, and is linked
-- then; it is marked as granted just when it is handed the lock, which is claimed then and not
-- canceled; when it is posted it is handed the lock or canceled, until it leaves; while the mutex is
-- unlocked none waits that is not claimed; and it was awaited if it was touched at all.
pub record Good (locked : Bool) (a : Awaiter) (seen left : Bool) (posted waiting lock : ℕ)
    : Type 0 where
  pub once : posted ≤ flag a.claimed
  pub alone : waiting ≤ 1
  pub linked : waiting ≤ flag a.in_list
  pub granted : flag a.granted ≡ lock
  pub won : lock ≤ flag a.claimed
  pub kept : lock + flag a.canceled ≤ 1
  pub quiet : flag a.canceled + waiting ≤ flag a.claimed + 1
  pub due : posted ≤ flag left + lock + flag a.canceled
  pub served : waiting ≤ flag locked + flag a.claimed
  pub known : flag a.claimed + flag a.canceled + flag a.active + waiting ≤ 4 * flag seen

-- A change of one awaiter, seen from any awaiter.
pub update-cases {ℓ} :
    (f : ℕ → Awaiter) (w : ℕ) (g : Awaiter → Awaiter) (v : ℕ) (P : Awaiter → ℕ → Type ℓ)
    → (v ≡ w → P (g (f v)) 1)
    → ((v == w) ≡ false → P (f v) 0)
    → P (update f w (g (f w)) v) (flag (v == w))
unfolding update
update-cases f w g v P h k = elim (Bool-cases (v == w)) [
  | inl e ↦ let eq : v ≡ w = ground (arith, e) in rw e (subst (λ a. P (g a) 1) (ap f eq) (h eq))
  | inr e ↦ rw e (k e)
]

module _ {l : Bool} {a : Awaiter} {seen left : Bool} {p n k : ℕ}
    (g : Good l a seen left p n k) where
  pub locked-Good : Good true a seen left p n k
  locked-Good = record {
    once = g.once;
    alone = g.alone;
    linked = g.linked;
    granted = g.granted;
    won = g.won;
    kept = g.kept;
    quiet = g.quiet;
    due = g.due;
    served = omega (arith, g.alone);
    known = g.known;
  }

  pub suspended-Good :
      seen ≡ false
      → l ≡ true
      → Good l (record a { in_list = true; active = true }) true left p (n + 1) k
  suspended-Good h e =
      let none_yet : flag seen ≡ 0 = ap flag h in
      record {
        once = g.once;
        alone = omega (arith, g.known, none_yet);
        linked = omega (arith, g.known, none_yet);
        granted = g.granted;
        won = g.won;
        kept = g.kept;
        quiet = omega (arith, g.known, none_yet);
        due = g.due;
        served = omega (arith, g.known, none_yet, ap flag e);
        known = omega (arith, g.known, none_yet);
      }

  pub refused-Good : seen ≡ false → Good l (record a { canceled = true }) true left p n k
  refused-Good h =
      let none_yet : flag seen ≡ 0 = ap flag h in
      record {
        once = g.once;
        alone = g.alone;
        linked = g.linked;
        granted = g.granted;
        won = g.won;
        kept = omega (arith, g.won, g.known, none_yet);
        quiet = omega (arith, g.known, none_yet);
        due = omega (arith, g.due);
        served = g.served;
        known = omega (arith, g.known, none_yet);
      }

  pub canceled-Good :
      a.claimed ≡ false
      → a.active ≡ true
      → Good l (record a { claimed = true; canceled = true }) seen left (p + 1) n k
  canceled-Good h e =
      let open_ : flag a.claimed ≡ 0 = ap flag h in
      let armed : flag a.active ≡ 1 = ap flag e in
      record {
        once = omega (arith, g.once, open_);
        alone = g.alone;
        linked = g.linked;
        granted = g.granted;
        won = omega (arith, g.won, open_);
        kept = omega (arith, g.won, open_);
        quiet = omega (arith, g.alone);
        due = omega (arith, g.once, open_);
        served = omega (arith, g.alone, flag_le l);
        known = omega (arith, g.known, g.alone, armed, flag_le a.active);
      }

  -- It returns from `co_await`, or is destroyed.
  pub left-Good :
      (b : Bool) (n' : ℕ)
      → n' ≤ n
      → n' ≤ flag b
      → Good l (record a { granted = false; active = false; in_list = b }) true true p n' 0
  left-Good b n' few on = record {
    once = g.once;
    alone = omega (arith, g.alone);
    linked = on;
    granted = refl;
    won = omega arith;
    kept = omega (arith, flag_le a.canceled);
    quiet = omega (arith, g.quiet);
    due = omega (arith, g.once, flag_le a.claimed);
    served = omega (arith, g.served);
    known = omega (arith, g.alone, flag_le a.claimed, flag_le a.canceled);
  }
