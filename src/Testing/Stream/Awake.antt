-- ===== src/Testing/Stream/Awake.antt =====
-- No reader sleeps while its end has something for it, and each is resumed once.
use capy.Base.{
  ℕ, ◌+◌, ◌≡◌, refl, sym, ap, subst, ◌∙◌, Bool, true, false, not, [], ◌∷◌, ◌++◌, none, some, inl,
  inr, if-elim, arith,
}
use capy.Testing.Stream.{
  Half, Reader, Pair, set_half, set_reader, wake, close_pair, read_suspend, cancel, disarm,
}
use capy.Testing.Stream.Halves.{ends, set_half_here, set_half_other, reader-cases}
use capy.Testing.Stream.Wakes.{Once, wake-Woken}
use capy.Sync.Counts.{flag, times, times-snoc, plus_zero}

-- There is nothing to read, and there may be yet.
abbrev pub Quiet : Pair → Bool → Type 0
Quiet p i = ((p.sides i).buf ≡ []) × ((p.sides i).eof ≡ false) × (p.closed ≡ false)

-- Each reader is posted once if it is claimed, and not otherwise; one with a stop callback that is not
-- claimed is parked.
pub record Tidy (p : Pair) : Type 0 where
  pub once : (v : ℕ) → Once p v
  pub found :
      (v : ℕ)
      → (p.reader v).active ≡ true
      → (p.reader v).claimed ≡ false
      → (i : Bool) × ((p.sides i).pending ≡ some v)

abbrev pub QuietAt : Pair → Bool → Type 0
QuietAt p i = (w : ℕ) → (p.sides i).pending ≡ some w → (p.reader w).claimed ≡ false → Quiet p i

-- And a reader that is parked and not claimed has nothing to read.
pub record Attentive (p : Pair) : Type 0 where
  pub tidy : Tidy p
  pub quiet : (i : Bool) → QuietAt p i

wake-Tidy : (p : Pair) (i : Bool) → Tidy p → Tidy (wake p i)
wake-Tidy p i v =
    let k = wake-Woken p i in
    record {
      once = λ w. k.once w (v.once w);
      found = λ w on free.
          let (j, e) = v.found w (sym (k.active w) ∙ on) (k.unclaimed w free) in
          elim (ends i j) [
            | inl here ↦ cc (k.claims w (ap (λ x. (p.sides x).pending) (sym here) ∙ e), free)
            | inr there ↦
                (not i, ap (λ h. h.pending) k.other ∙ ap (λ x. (p.sides x).pending) (sym there) ∙ e)
          ];
    }

-- A pair where one side may have something for its reader.
wake-Attentive : (p : Pair) (i : Bool) → Tidy p → QuietAt p (not i) → Attentive (wake p i)
wake-Attentive p i v other =
    let k = wake-Woken p i in
    record {
      tidy = wake-Tidy p i v;
      quiet = λ j w e free. elim (ends i j) [
        | inl here ↦ cc (k.unparked, ap (λ x. ((wake p i).sides x).pending) (sym here) ∙ e)
        | inr there ↦
            let was : (p.sides (not i)).pending ≡ some w =
              ap (λ h. h.pending) (sym k.other)
              ∙ ap (λ x. ((wake p i).sides x).pending) (sym there)
              ∙ e in
            let (buf, eof, closed) = other w was (k.unclaimed w free) in
            subst (Quiet (wake p i)) (sym there)
              ((k.same (not i)).0 ∙ buf, (k.same (not i)).1 ∙ eof, k.closed ∙ closed)
      ];
    }

pub close_pair-Attentive : (p : Pair) → Tidy p → Attentive (close_pair p)
unfolding close_pair
close_pair-Attentive p v =
    let q = record p { closed = true } in
    let t : Tidy q = record { once = v.once; found = v.found } in
    let k = wake-Woken q false in
    wake-Attentive (wake q false) true (wake-Tidy q false t) (λ w e _. cc (k.unparked, e))

module _ (p : Pair) (i : Bool) (h : Half) (same : h.pending ≡ (p.sides i).pending) where
  -- A change of one side that leaves its reader.
  data-pending : (j : Bool) → ((set_half p i h).sides j).pending ≡ (p.sides j).pending
  data-pending j = elim (ends i j) [
    | inl here ↦
        subst (λ x. ((set_half p i h).sides x).pending ≡ (p.sides x).pending) (sym here)
          (ap (λ g. g.pending) (set_half_here p i h) ∙ same)
    | inr there ↦
        subst (λ x. ((set_half p i h).sides x).pending ≡ (p.sides x).pending) (sym there)
          (ap (λ g. g.pending) (set_half_other p i h))
  ]

  data-Tidy : Tidy p → Tidy (set_half p i h)
  unfolding set_half
  data-Tidy v = record {
    once = v.once;
    found = λ w on free. let (j, e) = v.found w on free in (j, data-pending j ∙ e);
  }

  data-other : QuietAt p (not i) → QuietAt (set_half p i h) (not i)
  unfolding set_half
  data-other v w e free =
      let (buf, eof, closed) = v w (sym (data-pending (not i)) ∙ e) free in
      let o = set_half_other p i h in (ap (λ g. g.buf) o ∙ buf, ap (λ g. g.eof) o ∙ eof, closed)

  pub data-wake : Attentive p → Attentive (wake (set_half p i h) i)
  data-wake v = wake-Attentive (set_half p i h) i (data-Tidy v.tidy) (data-other (v.quiet (not i)))

  -- A change that brings nothing to read.
  pub data-Attentive :
      ((p.sides i).buf ≡ [] → h.buf ≡ [])
      → h.eof ≡ (p.sides i).eof
      → Attentive p
      → Attentive (set_half p i h)
  unfolding set_half
  data-Attentive less ends_ v = record {
    tidy = data-Tidy v.tidy;
    quiet = λ j w e free. elim (ends i j) [
      | inl here ↦
          let (buf, eof, closed) =
            v.quiet i w (ap (λ x. (p.sides x).pending) (sym here) ∙ sym (data-pending j) ∙ e)
              free in
          let o = set_half_here p i h in
          subst (Quiet (set_half p i h)) (sym here)
            (ap (λ g. g.buf) o ∙ less buf, ap (λ g. g.eof) o ∙ ends_ ∙ eof, closed)
      | inr there ↦ subst (Quiet (set_half p i h)) (sym there) (
          data-other (v.quiet (not i)) w
            (ap (λ x. ((set_half p i h).sides x).pending) (sym there) ∙ e) free)
    ];
  }

module _ (p : Pair) (w : ℕ) (v : Attentive p) where
  -- A change of one reader that keeps its claim, and starts no wait.
  reader-Attentive :
      (r : Reader)
      → r.claimed ≡ (p.reader w).claimed
      → (r.active ≡ true → (p.reader w).active ≡ true)
      → Attentive (set_reader p w r)
  unfolding set_reader
  reader-Attentive r kept less = record {
    tidy = record {
      once = λ u.
          reader-cases p w r u (λ x n. times u p.posted ≡ flag x.claimed)
            (λ eq. v.tidy.once u ∙ ap flag (ap (λ y. (p.reader y).claimed) eq ∙ sym kept))
            (λ _. v.tidy.once u);
      found = λ u.
          reader-cases p w r u
            (λ x n.
              x.active ≡ true → x.claimed ≡ false → (j : Bool) × ((p.sides j).pending ≡ some u))
            (λ eq on free.
              v.tidy.found u (ap (λ y. (p.reader y).active) eq ∙ less on)
                (ap (λ y. (p.reader y).claimed) eq ∙ sym kept ∙ free))
            (λ _. v.tidy.found u);
    };
    quiet = λ j u e.
        reader-cases p w r u (λ x n. x.claimed ≡ false → Quiet p j)
          (λ eq free. v.quiet j u e (ap (λ y. (p.reader y).claimed) eq ∙ sym kept ∙ free))
          (λ _. v.quiet j u e);
  }

  pub disarm-Attentive : Attentive (disarm p w)
  unfolding disarm
  disarm-Attentive = reader-Attentive _ refl (λ h. cc h)

  pub refuse-Attentive : (i : Bool) → Attentive (read_suspend p i w true).0
  unfolding read_suspend
  refuse-Attentive i = reader-Attentive _ refl (λ h. h)

  pub cancel-Attentive : Attentive (cancel p w)
  unfolding cancel set_reader
  cancel-Attentive =
      let r = record (p.reader w) { claimed = true; canceled = true } in
      if-elim Attentive (p.reader w).claimed p
        (record (set_reader p w r) { posted = p.posted ++ w ∷ [] }) (λ _. v)
        (λ open_. record {
          tidy = record {
            once = λ u.
                times-snoc u w p.posted
                ∙ reader-cases p w r u (λ x n. times u p.posted + n ≡ flag x.claimed)
                    (λ eq.
                      let none_yet : (p.reader u).claimed ≡ false =
                        ap (λ y. (p.reader y).claimed) eq ∙ open_ in
                      omega (arith, v.tidy.once u, ap flag none_yet))
                    (λ _. plus_zero (times u p.posted) ∙ v.tidy.once u);
            found = λ u.
                reader-cases p w r u
                  (λ x n.
                    x.active ≡ true
                    → x.claimed ≡ false
                    → (j : Bool) × ((p.sides j).pending ≡ some u))
                  (λ _ _ h. cc h) (λ _. v.tidy.found u);
          };
          quiet = λ j u e.
              reader-cases p w r u (λ x n. x.claimed ≡ false → Quiet p j) (λ _ h. cc h)
                (λ _. v.quiet j u e);
        })

  -- A reader without a stop callback leaves the side that it stands on.
  pub unpend-Attentive :
      (i : Bool)
      → (p.reader w).active ≡ false
      → (p.sides i).pending ≡ some w
      → Attentive (set_half p i (record (p.sides i) { pending = none }))
  unfolding set_half
  unpend-Attentive i off here =
      let h = record (p.sides i) { pending = none } in
      let q = set_half p i h in
      record {
        tidy = record {
          once = v.tidy.once;
          found = λ u on free.
              let (j, e) = v.tidy.found u on free in
              elim (ends i j) [
                | inl eq ↦
                    let it : w ≡ u = cc (sym here ∙ ap (λ x. (p.sides x).pending) (sym eq) ∙ e) in
                    cc (ap (λ x. (p.reader x).active) it, off, on)
                | inr eq ↦ (
                  not i,
                  ap (λ g. g.pending) (set_half_other p i h)
                      ∙ ap (λ x. (p.sides x).pending) (sym eq)
                      ∙ e,
                )
              ];
        };
        quiet = λ j u e free. elim (ends i j) [
          | inl eq ↦ cc (
            ap (λ g. g.pending) (set_half_here p i h),
            ap (λ x. (q.sides x).pending) (sym eq) ∙ e,
          )
          | inr eq ↦
              let o = set_half_other p i h in
              let (buf, eof, closed) =
                v.quiet (not i) u
                  (ap (λ g. g.pending) (sym o) ∙ ap (λ x. (q.sides x).pending) (sym eq) ∙ e) free in
              subst (Quiet q) (sym eq) (ap (λ g. g.buf) o ∙ buf, ap (λ g. g.eof) o ∙ eof, closed)
        ];
      }
