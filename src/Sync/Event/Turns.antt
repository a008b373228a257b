-- ===== src/Sync/Event/Turns.antt =====
-- One awaiter through the turns of the event.
use capy.Base.{ℕ, ◌+◌, ◌*◌, ◌≤◌, ◌≡◌, ap, arith, Bool, true, false, ◌⊎◌, inl, inr}
use capy.Sync.Event.{Waiter, refused, enlisted, claim_canceled, disarm, unlinked, end_claim}
use capy.Sync.Event.Claims.{Claimed}
use capy.Sync.Counts.{flag, flag_le}

-- An awaiter that stands so often among the posted, in the lists of `set`, and among the waiters. It
-- is posted or taken once at most, and when it is claimed only; if linked and not claimed it waits,
-- and waits once; `set` holds none that is canceled; and it was awaited if it was touched at all.
pub record Good (a : Waiter) (seen : Bool) (posted taken waiting : ℕ) : Type 0 where
  pub once : posted + taken ≤ flag a.claimed
  pub found : flag a.linked ≤ flag a.claimed + waiting
  pub alone : waiting ≤ 1
  pub kept : flag a.canceled + taken ≤ 1
  pub quiet : flag a.canceled + waiting ≤ flag a.claimed + 1
  pub known :
      flag a.claimed + flag a.linked + flag a.canceled + flag a.active + waiting ≤ 5 * flag seen

module _ {a : Waiter} {seen : Bool} {p t n : ℕ} (g : Good a seen p t n) where
  pub refused-Good : seen ≡ false → Good (refused a) true p t n
  refused-Good h =
      let none_yet : flag seen ≡ 0 = ap flag h in
      record {
        once = omega (arith, g.once);
        found = omega (arith, g.found);
        alone = g.alone;
        kept = omega (arith, g.once, g.known, none_yet);
        quiet = omega (arith, g.known, none_yet);
        known = omega (arith, g.known, none_yet);
      }

  pub enlisted-Good : seen ≡ false → Good (enlisted a) true p t (n + 1)
  enlisted-Good h =
      let none_yet : flag seen ≡ 0 = ap flag h in
      record {
        once = omega (arith, g.once);
        found = omega arith;
        alone = omega (arith, g.known, none_yet);
        kept = g.kept;
        quiet = omega (arith, g.known, none_yet);
        known = omega (arith, g.known, none_yet);
      }

  pub canceled-Good : a.claimed ≡ false → a.active ≡ true → Good (claim_canceled a) seen (p + 1) t n
  canceled-Good h k =
      let open_ : flag a.claimed ≡ 0 = ap flag h in
      let armed : flag a.active ≡ 1 = ap flag k in
      record {
        once = omega (arith, g.once, open_);
        found = omega (arith, flag_le a.linked);
        alone = g.alone;
        kept = omega (arith, g.once, open_);
        quiet = omega (arith, g.alone);
        known = omega (arith, g.known, g.alone, armed, flag_le a.linked, flag_le a.active);
      }

  pub disarmed-Good : Good (disarm a) seen p t n
  disarmed-Good = record {
    once = g.once;
    found = g.found;
    alone = g.alone;
    kept = g.kept;
    quiet = g.quiet;
    known = omega (arith, g.known);
  }

  -- An awaiter that leaves the lists.
  pub left-Good :
      (t' n' : ℕ)
      → t' ≤ t
      → n' ≤ n
      → Good (record a { active = false; linked = false }) seen p t' n'
  left-Good t' n' ht hn = record {
    once = omega (arith, g.once);
    found = omega arith;
    alone = omega (arith, g.alone);
    kept = omega (arith, g.kept);
    quiet = omega (arith, g.quiet);
    known = omega (arith, g.known);
  }

  pub taken-Good : (b : Waiter) (k : ℕ) → Claimed a b n k → Good b seen p (k + t) 0
  taken-Good b k c =
      let same : flag b.canceled ≡ flag a.canceled = ap flag c.canceled in
      let armed : flag b.active ≡ flag a.active = ap flag c.active in
      let low = flag_le b.claimed in
      let gone : (n ≡ 0) ⊎ (flag b.claimed ≡ 1) = elim c.all [
        | inl e ↦ inl e
        | inr e ↦ inr (ap flag e)
      ] in
      record {
        once = omega (arith, g.once, c.count);
        found = elim gone [
          | inl e ↦ omega (arith, c.linked, g.found, c.count, e, flag_le b.linked)
          | inr e ↦ omega (arith, e, flag_le b.linked)
        ];
        alone = omega arith;
        kept = omega (arith, same, g.kept, g.quiet, g.once, c.count, c.few, low);
        quiet = omega (arith, flag_le b.canceled);
        known = omega (
          arith,
          same,
          armed,
          g.known,
          c.few,
          c.count,
          c.linked,
          low,
          flag_le b.linked,
          flag_le b.active,
          flag_le b.canceled,
        );
      }

pub posted-Good :
    {a : Waiter} {seen : Bool} (p t n : ℕ)
    → Good a seen p (1 + t) n
    → Good (unlinked a) seen (p + 1) t n
posted-Good p t n g = record {
  once = omega (arith, g.once);
  found = omega arith;
  alone = g.alone;
  kept = omega (arith, g.kept);
  quiet = g.quiet;
  known = omega (arith, g.known);
}

-- A turn of the destructor's loop, for one who was claimed and for one who was not.
pub skipped-Good :
    (a : Waiter) (seen : Bool) (p t n : ℕ)
    → Good a seen p t (1 + n)
    → a.claimed ≡ true
    → Good (end_claim a) seen p t n
skipped-Good a seen p t n g h = rw h record {
  once = omega (arith, g.once, ap flag h);
  found = omega arith;
  alone = omega (arith, g.alone);
  kept = g.kept;
  quiet = omega (arith, g.quiet, flag_le a.canceled, g.alone);
  known = omega (arith, g.known, ap flag h);
}

pub ended-Good :
    (a : Waiter) (seen : Bool) (p t n : ℕ)
    → Good a seen p t (1 + n)
    → a.claimed ≡ false
    → Good (end_claim a) seen (p + 1) t n
ended-Good a seen p t n g h = rw h record {
  once = omega (arith, g.once, ap flag h);
  found = omega arith;
  alone = omega (arith, g.alone);
  kept = omega (arith, g.once, ap flag h);
  quiet = omega (arith, g.alone);
  known = omega (arith, g.known, flag_le a.active, g.alone);
}
