-- ===== src/Sync/Mutex/Calls.antt =====
-- The calls that suspend, resume, cancel and destroy one awaiter, and the release by the holder.
use capy.Base.{
  ℕ, ◌+◌, ◌≤◌, ◌≡◌, refl, sym, ap, subst, ◌∙◌, arith, Bool, true, false, List, [], ◌∷◌, ◌++◌,
  Option, none, some, ◌==◌, ◌&&◌, inl, inr, if◌then◌else◌, if-elim, Bool-cases,
}
use capy.Sync.Mutex.{Mutex, update, remove, await_suspend, cancel, await_resume, forget}
use capy.Sync.Counts.{
  flag, times, times-snoc, times-remove_le, times-remove_other, times-remove_self, plus_zero, is_it,
}
use capy.Sync.Mutex.Turns.{
  given, Good, update-cases, suspended-Good, refused-Good, canceled-Good, left-Good,
}
use capy.Sync.Mutex.Rounds.{GoodAt, Ready}
use capy.Sync.Mutex.System.{mark}

abbrev pub AllGood : Mutex → (ℕ → Bool) → (ℕ → Bool) → Type 0
AllGood m seen left = (v : ℕ) → GoodAt m seen left v

given_other : (v w : ℕ) (o : Option ℕ) → given w o ≡ 1 → (v == w) ≡ false → given v o ≡ 0
given_other v w none h e = refl
given_other v w (some x) h e = ground (arith, h, e)

module _ (m : Mutex) (seen left : ℕ → Bool) (w : ℕ) (good : AllGood m seen left) where
  pub suspend-Good :
      seen w ≡ false → m.locked ≡ true → AllGood (await_suspend m w false).0 (mark seen w) left
  unfolding await_suspend
  suspend-Good new busy v = rw (times-snoc v w m.waiters) (
      update-cases m.awaiter w (λ a. record a { in_list = true; active = true }) v
        (λ a n.
          Good m.locked a (mark seen w v) (left v) (times v m.posted) (times v m.waiters + n)
            (given v m.granted_to))
        (λ eq. rw (is_it v w eq) (suspended-Good (good v) (ap seen eq ∙ new) busy))
        (λ other. rw (other, plus_zero (times v m.waiters)) (good v)))

  pub refuse-Good : seen w ≡ false → AllGood (await_suspend m w true).0 (mark seen w) left
  unfolding await_suspend
  refuse-Good new v =
      update-cases m.awaiter w (λ a. record a { canceled = true }) v
        (λ a n.
          Good m.locked a (mark seen w v) (left v) (times v m.posted) (times v m.waiters)
            (given v m.granted_to))
        (λ eq. rw (is_it v w eq) (refused-Good (good v) (ap seen eq ∙ new)))
        (λ other. rw other (good v))

  pub cancel-Good : (m.awaiter w).active ≡ true → AllGood (cancel m w) seen left
  unfolding cancel
  cancel-Good armed v =
      let after = record m {
        awaiter = update m.awaiter w (record (m.awaiter w) { claimed = true; canceled = true });
        posted = m.posted ++ w ∷ [];
      } in
      if-elim (λ x. GoodAt x seen left v) (m.awaiter w).claimed m after (λ _. good v)
        (λ open_. rw (times-snoc v w m.posted) (
          update-cases m.awaiter w (λ a. record a { claimed = true; canceled = true }) v
            (λ a n.
              Good m.locked a (seen v) (left v) (times v m.posted + n) (times v m.waiters)
                (given v m.granted_to))
            (λ eq.
              canceled-Good (good v) (ap (λ u. (m.awaiter u).claimed) eq ∙ open_)
                (ap (λ u. (m.awaiter u).active) eq ∙ armed))
            (λ _. rw (plus_zero (times v m.posted)) (good v))))

  -- The awaiter leaves with `b` as its `in_list_`, the list of waiters being `ws` then.
  leave-Good :
      (o : Option ℕ) (ws : List ℕ) (b : Bool)
      → given w o ≡ 0
      → ((v : ℕ)
          → (v == w) ≡ false
          → (given v o ≡ given v m.granted_to) × (times v ws ≡ times v m.waiters))
      → times w ws ≤ times w m.waiters
      → times w ws ≤ flag b
      → AllGood
          (record m {
            granted_to = o;
            waiters = ws;
            awaiter =
                update m.awaiter w
                  (record (m.awaiter w) { granted = false; active = false; in_list = b });
          })
          (mark seen w)
          (mark left w)
  leave-Good o ws b free same few on v =
      update-cases m.awaiter w (λ a. record a { granted = false; active = false; in_list = b }) v
        (λ a n.
          Good m.locked a (mark seen w v) (mark left w v) (times v m.posted) (times v ws)
            (given v o))
        (λ eq.
          let few_v = subst (λ u. times u ws ≤ times u m.waiters) (sym eq) few in
          let on_v = subst (λ u. times u ws ≤ flag b) (sym eq) on in
          rw (is_it v w eq, ap (λ u. given u o) eq ∙ free)
            (left-Good (good v) b (times v ws) few_v on_v))
        (λ other. rw other (
          subst
            (λ k. Good m.locked (m.awaiter v) (seen v) (left v) (times v m.posted) (times v ws) k)
            (sym (same v other).0)
            (subst
              (λ n.
                Good m.locked (m.awaiter v) (seen v) (left v) (times v m.posted) n
                  (given v m.granted_to))
              (sym (same v other).1) (good v))))

  out_of_list :
      (c : Bool)
      → times w (if c then remove w m.waiters else m.waiters)
        ≤ flag (if c then false else (m.awaiter w).in_list)
  out_of_list true = omega (arith, times-remove_self w m.waiters, (good w).alone)
  out_of_list false = (good w).linked

  others_stay :
      (c : Bool) (v : ℕ)
      → (v == w) ≡ false
      → times v (if c then remove w m.waiters else m.waiters) ≡ times v m.waiters
  others_stay true v other = times-remove_other v w m.waiters other
  others_stay false v other = refl

  fewer : (c : Bool) → times w (if c then remove w m.waiters else m.waiters) ≤ times w m.waiters
  fewer true = times-remove_le w w m.waiters
  fewer false = omega arith

  taken_back :
      (c : Bool) → (m.awaiter w).granted ≡ c → given w (if c then none else m.granted_to) ≡ 0
  taken_back true e = refl
  taken_back false e = sym (good w).granted ∙ ap flag e

  others_given :
      (c : Bool) (v : ℕ)
      → (m.awaiter w).granted ≡ c
      → (v == w) ≡ false
      → given v (if c then none else m.granted_to) ≡ given v m.granted_to
  others_given true v e other =
      sym (given_other v w m.granted_to (sym (good w).granted ∙ ap flag e) other)
  others_given false v e other = refl

  pub resume-Good : AllGood (await_resume m w).0 (mark seen w) (mark left w)
  unfolding await_resume
  resume-Good =
      let a = m.awaiter w in
      let unlink = a.active && (a.canceled && a.in_list) in
      leave-Good _ _ _ (taken_back a.granted refl)
        (λ v other. (others_given a.granted v refl other, others_stay unlink v other))
        (fewer unlink) (out_of_list unlink)

  -- `~lock_awaiter`, up to the release of the lock.
  unfoldable pub unlinked : Mutex
  unlinked = record m {
    waiters = if (m.awaiter w).in_list then remove w m.waiters else m.waiters;
    awaiter = update m.awaiter w (record (m.awaiter w) { active = false });
  }

  still_linked :
      (c : Bool)
      → (m.awaiter w).in_list ≡ c
      → times w (if c then remove w m.waiters else m.waiters) ≤ flag c
  still_linked true e = omega (arith, times-remove_self w m.waiters, (good w).alone)
  still_linked false e = omega (arith, (good w).linked, ap flag e)

  -- A destroyed awaiter that was not handed the lock.
  pub destroy-Good : (m.awaiter w).granted ≡ false → AllGood unlinked (mark seen w) (mark left w)
  unfolding unlinked
  destroy-Good e =
      let a = m.awaiter w in
      subst
        (λ g.
          AllGood
            (record m {
              waiters = if a.in_list then remove w m.waiters else m.waiters;
              awaiter = update m.awaiter w (record a { active = false; granted = g });
            })
            (mark seen w) (mark left w))
        (sym e)
        (leave-Good m.granted_to _ a.in_list (sym (good w).granted ∙ ap flag e)
          (λ v other. (refl, others_stay a.in_list v other)) (fewer a.in_list)
          (still_linked a.in_list refl))

  forget_value :
      (v : ℕ)
      → (forget unlinked w).awaiter v
        ≡ update m.awaiter w
            (record (m.awaiter w) {
              granted = false;
              active = false;
              in_list = (m.awaiter w).in_list;
            })
            v
  unfolding forget unlinked update
  forget_value v =
      let self : (w == w) ≡ true = is_it w w refl in
      elim (Bool-cases (v == w)) [ inl e ↦ rw (e, self) refl | inr e ↦ rw e refl ]

  -- One that was handed the lock gives it on.
  pub forget-Ready :
      (m.awaiter w).granted ≡ true
      → m.locked ≡ true
      → Ready (forget unlinked w) (mark seen w) (mark left w)
  unfolding unlinked forget
  forget-Ready e busy =
      let a = m.awaiter w in
      let had : given w m.granted_to ≡ 1 = sym (good w).granted ∙ ap flag e in
      let rest =
        leave-Good none (if a.in_list then remove w m.waiters else m.waiters) a.in_list refl
          (λ v other. (sym (given_other v w m.granted_to had other), others_stay a.in_list v other))
          (fewer a.in_list) (still_linked a.in_list refl) in
      record {
        locked = busy;
        free = refl;
        good = λ v.
            subst
              (λ b.
                Good m.locked b (mark seen w v) (mark left w v) (times v m.posted)
                  (times v (if a.in_list then remove w m.waiters else m.waiters)) 0)
              (sym (forget_value v)) (rest v);
      }
