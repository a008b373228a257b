-- ===== src/Testing/Fuse/Armed/Rounds.antt =====
-- The rounds of `armed`: they end, and a fuse that was armed before injects no error codes.
use capy.Base.{
  ℕ, zero, suc, ◌+◌, ◌%◌, ◌<◌, ◌≤◌, ◌≡◌, ◌↔◌, refl, sym, ap, ap₂, ◌∙◌, inl, inr, arith, Bool, true,
  false, ◌||◌, Option, none, some, Bool-cases, ltb, ◌==◌, if◌then◌else◌, size_max, size_mod,
}
use capy.Testing.Fuse.{Fuse, another, returned}
use capy.Testing.Fuse.Armed.{
  Program, run, failed, Result, Verdict, clean, broken, phase, first_phase, second_phase, go_on,
  armed, ended,
}
use capy.Testing.Fuse.Armed.Runs.{Polite, points, Kept, run-Ends, run-below, run-triggers, run-past}

-- A phase that ended cleanly, with what the next needs.
pub record Cleared (s : Fuse) (r : Fuse × Verdict) : Type 0 where
  pub state : Fuse
  pub returns : r ≡ (state, clean)
  pub kept :
      (state.throws ≡ s.throws)
      × (state.stopped ≡ s.stopped)
      × (state.inert ≡ s.inert)
      × (state.ec ≡ s.ec)
  pub quiet : state.triggered ≡ false

-- A round that does not fail the test leads to the next.
phase-next :
    (mode : Bool) (fuel : ℕ) (p : Program) (s t : Fuse)
    → another s ≡ (t, true)
    → failed mode (run p t).0.ec (run p t).1 ≡ false
    → (run p t).0.stopped ≡ false
    → phase mode (suc fuel) p s ≡ phase mode fuel p (run p t).0
unfolding phase
phase-next mode fuel p s t e f g =
    ap
      (λ r.
        let u = run p r.0 in
        if r.1
        then (if failed mode u.0.ec u.1 || u.0.stopped
            then (
              record u.0 { inert = true },
              broken (record { loc = u.0.loc; ep = u.0.ep; success = false }),
            )
            else phase mode fuel p u.0)
        else (r.0, clean))
      e
    ∙ ap₂
        (λ a b.
          if a || b
          then (
            record (run p t).0 { inert = true },
            broken (record { loc = (run p t).0.loc; ep = (run p t).0.ep; success = false }),
          )
          else phase mode fuel p (run p t).0)
        f g

phase-end :
    (mode : Bool) (fuel : ℕ) (p : Program) (s : Fuse)
    → another s ≡ (s, false)
    → phase mode (suc fuel) p s ≡ (s, clean)
unfolding phase
phase-end mode fuel p s e =
    ap
      (λ r.
        let u = run p r.0 in
        if r.1
        then (if failed mode u.0.ec u.1 || u.0.stopped
            then (
              record u.0 { inert = true },
              broken (record { loc = u.0.loc; ep = u.0.ep; success = false }),
            )
            else phase mode fuel p u.0)
        else (r.0, clean))
      e

abbrev turn : Fuse → Bool → Bool → ℕ → Fuse × Bool
turn s first triggered n =
    if first
    then (record s { n = 0 }, true)
    else if triggered
    then (record s { n = n; i = 0; triggered = false }, true)
    else (s, false)

another-first : (s : Fuse) → s.n ≡ size_max → another s ≡ (record s { n = 0 }, true)
unfolding another
another-first s h =
    let first : (s.n == size_max) ≡ true = ground (arith, h) in
    ap (λ b. turn s b s.triggered ((s.n + 1) % size_mod)) first

another-next :
    (s : Fuse)
    → s.n + 1 < size_max
    → s.triggered ≡ true
    → another s ≡ (record s { n = s.n + 1; i = 0; triggered = false }, true)
unfolding another
another-next s h t =
    let go : (s.n == size_max) ≡ false = ground (arith, h) in
    ap₂ (λ b c. turn s b c ((s.n + 1) % size_mod)) go t ∙ ap (turn s false true) (omega (arith, h))

another-last : (s : Fuse) → s.n < size_max → s.triggered ≡ false → another s ≡ (s, false)
unfolding another
another-last s h t =
    let go : (s.n == size_max) ≡ false = ground (arith, h) in
    ap₂ (λ b c. turn s b c ((s.n + 1) % size_mod)) go t

Kept-same : {s : Fuse} → Kept s s
Kept-same = record { n = refl; throws = refl; stopped = refl; inert = refl; ec = refl }

module _ (mode : Bool) (p : Program) (v : Polite p) (small : points p + 2 < size_max) where
  phase-final :
      (fuel : ℕ) (s u : Fuse)
      → 0 < fuel
      → u.n < size_max
      → Kept s u
      → u.triggered ≡ false
      → Cleared s (phase mode fuel p u)
  phase-final zero s u pos h kept t = absurd (omega arith)
  phase-final (suc fuel) s u pos h kept t = record {
    state = u;
    returns = phase-end mode fuel p u (another-last u h t);
    kept = (kept.throws, kept.stopped, kept.inert, kept.ec);
    quiet = t;
  }

  -- A round from `t` and what follows it.
  round_lem :
      (fuel : ℕ) (s t : Fuse)
      → another s ≡ (t, true)
      → t.inert ≡ false
      → t.stopped ≡ false
      → t.throws ≡ mode
      → Cleared (run p t).0 (phase mode fuel p (run p t).0)
      → Cleared t (phase mode (suc fuel) p s)
  round_lem fuel s t e live open_ m c =
      let r = run-Ends p t v live in
      let fine = ap₂ (λ b x. failed b x (run p t).1) (sym m) r.kept.ec ∙ r.fine in
      record {
        state = c.state;
        returns = phase-next mode fuel p s t e fine (r.kept.stopped ∙ open_) ∙ c.returns;
        kept = (
          c.kept.0 ∙ r.kept.throws,
          c.kept.1 ∙ r.kept.stopped,
          c.kept.2 ∙ r.kept.inert,
          c.kept.3 ∙ r.kept.ec,
        );
        quiet = c.quiet;
      }

  rounds :
      (fuel : ℕ) (s : Fuse)
      → s.inert ≡ false
      → s.stopped ≡ false
      → s.throws ≡ mode
      → s.triggered ≡ true
      → s.n ≤ points p
      → points p + 1 < s.n + fuel
      → Cleared s (phase mode fuel p s)
  rounds zero s live open_ m t h f = absurd (omega (arith, h, f))
  rounds (suc fuel) s live open_ m t h f =
      let u = record s { n = s.n + 1; i = 0; triggered = false } in
      let r = run-Ends p u v live in
      let c =
        round_lem fuel s u (another-next s (omega (arith, small, h)) t) live open_ m
          (elim (Bool-cases (ltb s.n (points p))) [
            | inl more ↦
                rounds fuel (run p u).0 (r.kept.inert ∙ live) (r.kept.stopped ∙ open_)
                  (r.kept.throws ∙ m) (run-triggers p u v live (omega arith) (ground (arith, more)))
                  (ground (arith, more, r.kept.n)) (omega (arith, f, r.kept.n))
            | inr last ↦
                phase-final fuel (run p u).0 (run p u).0 (omega (arith, f, h))
                  (omega (arith, small, h, r.kept.n)) Kept-same
                  (ap (λ x. x.0.triggered) (run-below p u v live (ground (arith, last))))
          ]) in
      record { state = c.state; returns = c.returns; kept = c.kept; quiet = c.quiet }

  phase_lem :
      (fuel : ℕ) (s : Fuse)
      → s.inert ≡ false
      → s.stopped ≡ false
      → s.throws ≡ mode
      → s.n ≡ size_max
      → points p + 2 < fuel
      → Cleared s (phase mode fuel p s)
  phase_lem zero s live open_ m h f = absurd (omega (arith, f))
  phase_lem (suc fuel) s live open_ m h f =
      let t = record s { n = 0 } in
      let w = (run p t).0 in
      let r = run-Ends p t v live in
      let c = round_lem fuel s t (another-first s h) live open_ m (elim (Bool-cases w.triggered) [
        | inl more ↦
            rounds fuel w (r.kept.inert ∙ live) (r.kept.stopped ∙ open_) (r.kept.throws ∙ m) more
              (omega (arith, r.kept.n)) (omega (arith, f, r.kept.n))
        | inr last ↦
            phase-final fuel w w (omega (arith, f)) (omega (arith, small, r.kept.n)) Kept-same last
      ]) in
      record { state = c.state; returns = c.returns; kept = c.kept; quiet = c.quiet }

-- How `armed` ends on a test that handles every error.
pub record Succeeds (s : Fuse) (r : Fuse × Option Result) : Type 0 where
  pub state : Fuse
  pub returns : r ≡ (state, some (record { loc = 0; ep = none; success = true }))
  pub idle : state.inert ≡ true
  pub open_ : state.stopped ≡ false
  pub ec : state.ec ≡ s.ec

-- On a fuse that no failure has stopped, armed of a test that neither fails nor throws by itself,
-- whatever errors it is given, and calls the fuse fewer than 2^64 - 3 times in a run that is not
-- failed, ends with three more rounds than these calls as fuel for each phase: it reports success,
-- leaves the fuse inert and not stopped, and does not change the code that it injects.
pub armed-Succeeds :
    (fuel : ℕ) (p : Program) (s : Fuse)
    → Polite p
    → s.stopped ≡ false
    → points p + 2 < size_max
    → points p + 2 < fuel
    → Succeeds s (armed fuel p s)
unfolding armed go_on first_phase second_phase
armed-Succeeds fuel p s v open_ small f =
    let a =
      phase_lem false p v small fuel (record s { throws = false; inert = false; n = size_max }) refl
        open_ refl refl f in
    let u = record a.state { throws = true; n = size_max; i = 0; triggered = false } in
    let b = phase_lem true p v small fuel u a.kept.2 (a.kept.1 ∙ open_) refl refl f in
    record {
      state = record b.state { inert = true };
      returns = ap (go_on fuel p) a.returns ∙ ap ended b.returns;
      idle = refl;
      open_ = b.kept.1 ∙ a.kept.1 ∙ open_;
      ec = b.kept.3 ∙ a.kept.3;
    }

-- In a round with failure point `n` from one on, a test that neither fails nor throws by itself
-- meets an injected error exactly when an unfailed run of it makes `n` calls or more.
pub run-points :
    (p : Program) (s : Fuse)
    → Polite p
    → s.inert ≡ false
    → s.triggered ≡ false
    → s.i ≡ 0
    → 0 < s.n
    → ((run p s).0.triggered ≡ true) ↔ (s.n ≤ points p)
run-points p s v live quiet start pos = (
  λ h. elim (Bool-cases (ltb (points p) s.n)) [
    | inl past ↦ absurd (
        cc (h, ap (λ x. x.0.triggered) (run-below p s v live (ground (arith, past, start))), quiet))
    | inr within ↦ ground (arith, within)
  ],
  λ h. run-triggers p s v live (omega (arith, start, pos)) (omega (arith, start, h)),
)

-- On a fuse that is not stopped and not triggered, as a successful armed leaves it, and whose count
-- of calls is above 0, armed of a test that neither fails nor throws by itself injects no error
-- code: its first phase is one round, in which the test runs to its end without an error.
pub first_phase_again :
    (fuel : ℕ) (p : Program) (s : Fuse)
    → Polite p
    → s.stopped ≡ false
    → s.triggered ≡ false
    → 0 < s.i
    → let t = record s { throws = false; inert = false; n = 0 } in
      (first_phase (suc (suc fuel)) p s ≡ (t, clean)) × (run p t ≡ (t, returned tt))
unfolding first_phase
first_phase_again fuel p s v open_ quiet counted =
    let a = record s { throws = false; inert = false; n = size_max } in
    let t = record s { throws = false; inert = false; n = 0 } in
    let past = run-past p t v refl counted in
    (
      phase-next false (suc fuel) p a t (another-first a refl)
            (ap (λ r. failed false r.0.ec r.1) past ∙ refl) (ap (λ r. r.0.stopped) past ∙ open_)
          ∙ ap (λ r. phase false (suc fuel) p r.0) past
          ∙ phase-end false fuel p t (another-last t (omega arith) quiet),
      past,
    )
