-- ===== src/Testing/Fuse/Armed/Runs.antt =====
-- One run of a test function under a fuse.
use capy.Base.{
  ℕ, suc, ◌+◌, ◌<◌, ◌≤◌, ◌≡◌, refl, sym, ap, ap₂, subst, ◌∙◌, inl, inr, arith, true, false, not,
  none, some, Bool-cases, ltb, ◌==◌, if◌then◌else◌,
}
use capy.Error.{Error, Errc, ErrorCode, Ec, capy_error, generic, other}
use capy.Testing.Fuse.{Fuse, Outcome, returned, thrown, maybe_fail}
use capy.Testing.Fuse.Armed.{
  Program, finish, raise, raise_other, call, signal, run, after_call, same_code, failed,
}

-- The test neither fails nor throws by itself, whatever errors it is given.
abbrev pub Polite : Program → Type 0
Polite finish = Unit {0}
Polite (raise e) = ⊥
Polite (raise_other n) = ⊥
Polite (call loc next) = (ec : Ec) → Polite (next ec)
Polite (signal ep loc next) = ⊥

-- How many calls of `maybe_fail` it makes while none of them fails.
abbrev pub points : Program → ℕ
points finish = 0
points (raise e) = 0
points (raise_other n) = 0
points (call loc next) = suc (points (next none))
points (signal ep loc next) = points next

-- What no call of `maybe_fail` changes.
pub record Kept (s t : Fuse) : Type 0 where
  pub n : t.n ≡ s.n
  pub throws : t.throws ≡ s.throws
  pub stopped : t.stopped ≡ s.stopped
  pub inert : t.inert ≡ s.inert
  pub ec : t.ec ≡ s.ec

same_code_refl : (e : ErrorCode) → same_code e e ≡ true
unfolding same_code
same_code_refl (capy_error Error.eof) = refl
same_code_refl (capy_error e) = refl
same_code_refl (generic Errc.operation_canceled) = refl
same_code_refl (generic e) = refl
same_code_refl (other n) = ground arith

module _ (s : Fuse) (loc : ℕ) (live : s.inert ≡ false) where
  maybe_fail-miss :
      (i : ℕ)
      → (if ltb s.i s.n then s.i + 1 else s.i) ≡ i
      → (i == s.n) ≡ false
      → maybe_fail s loc ≡ (record s { i = i }, returned none)
  unfolding maybe_fail
  maybe_fail-miss i count test =
      ap₂
        (λ b k.
          if b
          then (s, returned none)
          else if k == s.n
          then (
            record s { i = k; triggered = true; loc = loc },
            if s.throws then thrown s.ec else returned (some s.ec),
          )
          else (record s { i = k }, returned none))
        live count
      ∙ ap
          (λ b.
            if b
            then (
              record s { i = i; triggered = true; loc = loc },
              if s.throws then thrown s.ec else returned (some s.ec),
            )
            else (record s { i = i }, returned none))
          test

  maybe_fail-hit :
      (i : ℕ)
      → (if ltb s.i s.n then s.i + 1 else s.i) ≡ i
      → (i == s.n) ≡ true
      → maybe_fail s loc ≡ (
        record s { i = i; triggered = true; loc = loc },
        if s.throws then thrown s.ec else returned (some s.ec),
      )
  unfolding maybe_fail
  maybe_fail-hit i count test =
      ap₂
        (λ b k.
          if b
          then (s, returned none)
          else if k == s.n
          then (
            record s { i = k; triggered = true; loc = loc },
            if s.throws then thrown s.ec else returned (some s.ec),
          )
          else (record s { i = k }, returned none))
        live count
      ∙ ap
          (λ b.
            if b
            then (
              record s { i = i; triggered = true; loc = loc },
              if s.throws then thrown s.ec else returned (some s.ec),
            )
            else (record s { i = i }, returned none))
          test

  abbrev pub step : ℕ
  step = if ltb s.i s.n then s.i + 1 else s.i

  abbrev pub missed : Fuse
  missed = record s { i = step }

  abbrev pub hit : Fuse
  hit = record s { i = step; triggered = true; loc = loc }

  -- A call on a live fuse passes, returns the fuse's error, or throws it.
  pub data Answer : Type 0 where
    passes : (step == s.n) ≡ false → maybe_fail s loc ≡ (missed, returned none) → Answer
    fails_ :
        (step == s.n) ≡ true
        → s.throws ≡ false
        → maybe_fail s loc ≡ (hit, returned (some s.ec))
        → Answer
    throws : (step == s.n) ≡ true → s.throws ≡ true → maybe_fail s loc ≡ (hit, thrown s.ec) → Answer

  pub answer : Answer
  answer = elim (Bool-cases (step == s.n)) [
    | inr miss ↦ passes miss (maybe_fail-miss step refl miss)
    | inl h ↦ elim (Bool-cases s.throws) [
      | inl on ↦ throws h on (
          maybe_fail-hit step refl h
          ∙ ap (λ b. (hit, if b then thrown s.ec else returned (some s.ec))) on)
      | inr off ↦ fails_ h off (
          maybe_fail-hit step refl h
          ∙ ap (λ b. (hit, if b then thrown s.ec else returned (some s.ec))) off)
    ]
  ]

-- On a live fuse a polite test keeps what `maybe_fail` does not change, ends as `armed` allows, and
-- leaves a fuse that was triggered triggered.
pub record Ends (s : Fuse) (r : Fuse × Outcome (Unit {0})) : Type 0 where
  pub kept : Kept s r.0
  pub fine : failed s.throws s.ec r.1 ≡ false
  pub stays : s.triggered ≡ true → r.0.triggered ≡ true

pub run-Ends : (p : Program) (s : Fuse) → Polite p → s.inert ≡ false → Ends s (run p s)
unfolding run failed after_call
run-Ends finish s v live = record {
  kept = record { n = refl; throws = refl; stopped = refl; inert = refl; ec = refl };
  fine = refl;
  stays = λ h. h;
}
run-Ends (raise e) s v live = absurd v
run-Ends (raise_other n) s v live = absurd v
run-Ends (signal ep loc next) s v live = absurd v
run-Ends (call loc next) s v live = elim (answer s loc live) [
  | passes miss eq ↦
      let r = run-Ends (next none) (missed s loc live) (v none) live in
      subst (λ a. Ends s (after_call (λ ec. run (next ec)) a)) (sym eq)
        (record {
          kept = record {
            n = r.kept.n;
            throws = r.kept.throws;
            stopped = r.kept.stopped;
            inert = r.kept.inert;
            ec = r.kept.ec;
          };
          fine = r.fine;
          stays = r.stays;
        })
  | fails_ h off eq ↦
      let r = run-Ends (next (some s.ec)) (hit s loc live) (v (some s.ec)) live in
      subst (λ a. Ends s (after_call (λ ec. run (next ec)) a)) (sym eq)
        (record {
          kept = record {
            n = r.kept.n;
            throws = r.kept.throws;
            stopped = r.kept.stopped;
            inert = r.kept.inert;
            ec = r.kept.ec;
          };
          fine = r.fine;
          stays = λ _. r.stays refl;
        })
  | throws h on eq ↦
      subst (λ a. Ends s (after_call (λ ec. run (next ec)) a)) (sym eq)
        (record {
          kept = record { n = refl; throws = refl; stopped = refl; inert = refl; ec = refl };
          fine = ap (λ b. failed b s.ec (thrown s.ec)) on ∙ ap not (same_code_refl s.ec);
          stays = λ _. refl;
        })
]

-- Below the failure point a polite test returns, and the fuse counts its calls.
pub run-below :
    (p : Program) (s : Fuse)
    → Polite p
    → s.inert ≡ false
    → s.i + points p < s.n
    → run p s ≡ (record s { i = s.i + points p }, returned tt)
unfolding run after_call
run-below finish s v live h = ap (λ k. (record s { i = k }, returned tt)) (omega arith)
run-below (raise e) s v live h = absurd v
run-below (raise_other n) s v live h = absurd v
run-below (signal ep loc next) s v live h = absurd v
run-below (call loc next) s v live h =
    ap (after_call (λ ec. run (next ec)))
      (maybe_fail-miss s loc live (s.i + 1) (ground (arith, h)) (ground (arith, h)))
    ∙ run-below (next none) (record s { i = s.i + 1 }) (v none) live (omega (arith, h))
    ∙ ap (λ k. (record s { i = k }, returned tt)) (omega arith)

-- Otherwise, with the failure point ahead, it triggers.
pub run-triggers :
    (p : Program) (s : Fuse)
    → Polite p
    → s.inert ≡ false
    → s.i < s.n
    → s.n ≤ s.i + points p
    → (run p s).0.triggered ≡ true
unfolding run after_call
run-triggers finish s v live a b = absurd (omega (arith, a, b))
run-triggers (raise e) s v live a b = absurd v
run-triggers (raise_other n) s v live a b = absurd v
run-triggers (signal ep loc next) s v live a b = absurd v
run-triggers (call loc next) s v live a b = elim (answer s loc live) [
  | passes miss eq ↦
      ap (λ r. (after_call (λ ec. run (next ec)) r).0.triggered) eq
      ∙ run-triggers (next none) (missed s loc live) (v none) live (ground (arith, miss, a))
          (ground (arith, miss, a, b))
  | fails_ h off eq ↦
      ap (λ r. (after_call (λ ec. run (next ec)) r).0.triggered) eq
      ∙ (run-Ends (next (some s.ec)) (hit s loc live) (v (some s.ec)) live).stays refl
  | throws h on eq ↦ ap (λ r. (after_call (λ ec. run (next ec)) r).0.triggered) eq
]

-- A fuse whose count is past its failure point never fails a call.
pub run-past :
    (p : Program) (s : Fuse) → Polite p → s.inert ≡ false → s.n < s.i → run p s ≡ (s, returned tt)
unfolding run after_call
run-past finish s v live h = refl
run-past (raise e) s v live h = absurd v
run-past (raise_other n) s v live h = absurd v
run-past (signal ep loc next) s v live h = absurd v
run-past (call loc next) s v live h =
    ap (after_call (λ ec. run (next ec)))
      (maybe_fail-miss s loc live s.i (ground (arith, h)) (ground (arith, h)))
    ∙ run-past (next none) s (v none) live h
