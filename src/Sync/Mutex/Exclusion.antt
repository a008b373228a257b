-- ===== src/Sync/Mutex/Exclusion.antt =====
-- The states that a schedule of locks, unlocks, stops and destructions reaches.
use capy.Base.{
  ℕ, ◌+◌, ◌≤◌, ◌≡◌, refl, sym, ap, subst, ◌∙◌, arith, Bool, true, false, not, List, [], ◌∷◌, Option,
  none, some, ◌==◌, ◌⊎◌, inl, inr, if◌then◌else◌, if-elim, Bool-cases, length, has,
}
use capy.Sync.Mutex.{
  Mutex, async_mutex, update, remove, await_ready, await_suspend, cancel, await_resume, Fate,
  Unlocked, done, forget, unlock, destroy_awaiter,
}
use capy.Sync.Counts.{flag, flag_le, times, is_it}
use capy.Sync.Mutex.Turns.{held, given, Good, locked-Good}
use capy.Sync.Mutex.Rounds.{unlock-Passed}
use capy.Sync.Mutex.Calls.{
  AllGood, suspend-Good, refuse-Good, cancel-Good, resume-Good, unlinked, destroy-Good,
  forget-Ready,
}
use capy.Sync.Mutex.System.{
  System, mark, returned, suspended, Step, acquires, suspends, refuses, stops, resumes, unlocks,
  destroys, start, Reach, begin, then_,
}

-- The mutex is locked just when one coroutine holds the lock or is handed it, and never two; and each
-- awaiter is as it should be.
pub record Exclusive (s : System) : Type 0 where
  pub owner : length s.holders + held s.mutex.granted_to ≡ flag s.mutex.locked
  pub good : AllGood s.mutex s.seen s.left

length-remove : (w : ℕ) (xs : List ℕ) → has w xs ≡ true → length (remove w xs) + 1 ≡ length xs
length-remove w [] h = cc h
length-remove w (x ∷ xs) h = elim (Bool-cases (w == x)) [
  | inl e ↦ rw e (omega arith)
  | inr e ↦
      let later : has w xs ≡ true = ground (arith, h, e) in
      rw e (omega (arith, length-remove w xs later))
]

one_true : (b : Bool) → flag b ≡ 1 → b ≡ true
one_true true h = refl
one_true false h = absurd (omega (arith, h))

none_false : (b : Bool) → flag b ≡ 0 → b ≡ false
none_false false h = refl
none_false true h = absurd (omega (arith, h))

no_grant : (o : Option ℕ) → held o ≡ 0 → o ≡ none
no_grant none h = refl
no_grant (some w) h = absurd (omega (arith, h))

given_le : (v : ℕ) (o : Option ℕ) → given v o ≤ held o
given_le v none = omega arith
given_le v (some w) = flag_le (v == w)

held_le : (o : Option ℕ) → held o ≤ 1
held_le none = omega arith
held_le (some w) = omega arith

tried : Mutex → Bool → Mutex × Bool
tried m c = if c then (m, false) else (record m { locked = true }, true)

is_free : (m : Mutex) → (await_ready m).1 ≡ true → m.locked ≡ false
unfolding await_ready tried
is_free m h = elim (Bool-cases m.locked) [
  | inl e ↦ cc (sym (ap (λ c. (tried m c).1) e) ∙ h)
  | inr e ↦ e
]

is_busy : (m : Mutex) → (await_ready m).1 ≡ false → m.locked ≡ true
unfolding await_ready tried
is_busy m h = elim (Bool-cases m.locked) [
  | inl e ↦ e
  | inr e ↦ cc (sym (ap (λ c. (tried m c).1) e) ∙ h)
]

-- Whoever has the lock finds nobody else with it.
holder-alone :
    (s : System) (w : ℕ)
    → Exclusive s
    → has w s.holders ≡ true
    → (s.mutex.locked ≡ true) × (s.mutex.granted_to ≡ none) × (length (remove w s.holders) ≡ 0)
holder-alone s w v h =
    let n = length-remove w s.holders h in
    (
      one_true s.mutex.locked (omega (arith, v.owner, n, flag_le s.mutex.locked)),
      no_grant s.mutex.granted_to (omega (arith, v.owner, n, flag_le s.mutex.locked)),
      omega (arith, v.owner, n, flag_le s.mutex.locked),
    )

unlock-Exclusive :
    (s : System) (w : ℕ) (ex : ℕ → Fate) (m : Mutex)
    → Exclusive s
    → has w s.holders ≡ true
    → unlock ex s.mutex ≡ done m
    → Exclusive (record s { mutex = m; holders = remove w s.holders })
unlock-Exclusive s w ex m v h e =
    let (busy, free, nobody) = holder-alone s w v h in
    let p =
      unlock-Passed ex s.seen s.left s.mutex m record { locked = busy; free = free; good = v.good }
        e in
    record { owner = omega (arith, nobody, p.owner); good = p.good }

-- The lock of a granted awaiter that is resumed goes over to its coroutine.
resume_owner :
    (s : System) (w : ℕ) (b : Bool)
    → (s.mutex.awaiter w).granted ≡ b
    → Good s.mutex.locked
        (s.mutex.awaiter w)
        (s.seen w)
        (s.left w)
        (times w s.mutex.posted)
        (times w s.mutex.waiters)
        (given w s.mutex.granted_to)
    → length s.holders + held s.mutex.granted_to ≡ flag s.mutex.locked
    → (b ≡ true) ⊎ ((s.mutex.awaiter w).canceled ≡ true)
    → length (if not (s.mutex.awaiter w).canceled then w ∷ s.holders else s.holders)
        + held (if b then none else s.mutex.granted_to)
      ≡ flag s.mutex.locked
resume_owner s w true e g owner _ =
    let had : given w s.mutex.granted_to ≡ 1 = sym g.granted ∙ ap flag e in
    let clean : (s.mutex.awaiter w).canceled ≡ false = none_false _ (omega (arith, g.kept, had)) in
    rw clean (omega (arith, owner, given_le w s.mutex.granted_to, had, held_le s.mutex.granted_to))
resume_owner s w false e g owner (inl h) = cc h
resume_owner s w false e g owner (inr h) = rw h owner

-- The awaiter returns from `co_await`, with the lock if it was handed it, or with a cancellation.
resume-Exclusive :
    (s : System) (w : ℕ)
    → Exclusive s
    → ((s.mutex.awaiter w).granted ≡ true) ⊎ ((s.mutex.awaiter w).canceled ≡ true)
    → Exclusive (returned s w (await_resume s.mutex w))
unfolding await_resume
resume-Exclusive s w v h = record {
  owner = resume_owner s w (s.mutex.awaiter w).granted refl (v.good w) v.owner h;
  good = resume-Good s.mutex s.seen s.left w v.good;
}

-- Who is posted and has not left is handed the lock or canceled.
due_now :
    (s : System) (w : ℕ)
    → Exclusive s
    → times w s.mutex.posted ≡ 1
    → s.left w ≡ false
    → ((s.mutex.awaiter w).granted ≡ true) ⊎ ((s.mutex.awaiter w).canceled ≡ true)
due_now s w v once here = elim (Bool-cases (s.mutex.awaiter w).canceled) [
  | inl e ↦ inr e
  | inr e ↦
      let g = v.good w in
      inl (
        one_true _ (
          omega (
            arith,
            g.due,
            g.granted,
            once,
            ap flag here,
            ap flag e,
            flag_le (s.mutex.awaiter w).granted,
          )))
]

destroy-Exclusive :
    (s : System) (w : ℕ) (ex : ℕ → Fate) (m : Mutex)
    → Exclusive s
    → destroy_awaiter ex s.mutex w ≡ done m
    → Exclusive (record s { mutex = m; seen = mark s.seen w; left = mark s.left w })
unfolding destroy_awaiter unlinked
destroy-Exclusive s w ex m v e =
    let u = unlinked s.mutex s.seen s.left w v.good in
    let go : Bool → Unlocked = λ c. if c then unlock ex (forget u w) else done u in
    elim (Bool-cases (s.mutex.awaiter w).granted) [
      | inl g ↦
          let had : given w s.mutex.granted_to ≡ 1 = sym (v.good w).granted ∙ ap flag g in
          let busy =
            one_true s.mutex.locked (
              omega (arith, v.owner, had, given_le w s.mutex.granted_to, flag_le s.mutex.locked)) in
          let p =
            unlock-Passed ex (mark s.seen w) (mark s.left w) (forget u w) m
              (forget-Ready s.mutex s.seen s.left w v.good g busy) (sym (ap go g) ∙ e) in
          record {
            owner = omega (
              arith,
              p.owner,
              v.owner,
              had,
              given_le w s.mutex.granted_to,
              flag_le s.mutex.locked,
            );
            good = p.good;
          }
      | inr g ↦
          let out : u ≡ m = cc (sym (ap go g) ∙ e) in
          subst
            (λ x. Exclusive (record s { mutex = x; seen = mark s.seen w; left = mark s.left w }))
            out record { owner = v.owner; good = destroy-Good s.mutex s.seen s.left w v.good g }
    ]

-- The fast path: the lock is free.
acquire-Exclusive :
    (s : System) (w : ℕ)
    → Exclusive s
    → s.seen w ≡ false
    → (await_ready s.mutex).1 ≡ true
    → Exclusive (returned s w (await_resume (await_ready s.mutex).0 w))
unfolding await_ready await_resume tried
acquire-Exclusive s w v new ready =
    let g = v.good w in
    let none_yet : flag (s.seen w) ≡ 0 = ap flag new in
    let open_ = is_free s.mutex ready in
    let clean = none_false (s.mutex.awaiter w).canceled (omega (arith, g.known, none_yet)) in
    let unmarked =
      none_false (s.mutex.awaiter w).granted (omega (arith, g.granted, g.won, g.known, none_yet)) in
    subst (λ r. Exclusive (returned s w (await_resume r w)))
      (ap (λ c. (tried s.mutex c).0) (sym open_))
      record {
        owner = rw (clean, unmarked) (omega (arith, v.owner, ap flag open_));
        good =
            resume-Good (record s.mutex { locked = true }) s.seen s.left w
              (λ u. locked-Good (v.good u));
      }

suspend-Exclusive :
    (s : System) (w : ℕ)
    → Exclusive s
    → s.seen w ≡ false
    → (await_ready s.mutex).1 ≡ false
    → Exclusive (suspended s w false)
unfolding await_suspend
suspend-Exclusive s w v new busy = record {
  owner = v.owner;
  good = suspend-Good s.mutex s.seen s.left w v.good new (is_busy s.mutex busy);
}

refuse-Exclusive :
    (s : System) (w : ℕ)
    → Exclusive s
    → s.seen w ≡ false
    → Exclusive (returned (suspended s w true) w (await_resume (suspended s w true).mutex w))
unfolding await_suspend update
refuse-Exclusive s w v new =
    let told : ((suspended s w true).mutex.awaiter w).canceled ≡ true =
      ap
        (λ c.
          (if c
            then record (s.mutex.awaiter w) { canceled = true }
            else s.mutex.awaiter w).canceled)
        (is_it w w refl) in
    resume-Exclusive (suspended s w true) w
      (record { owner = v.owner; good = refuse-Good s.mutex s.seen s.left w v.good new }) (inr told)

stop-Exclusive :
    (s : System) (w : ℕ)
    → Exclusive s
    → (s.mutex.awaiter w).active ≡ true
    → Exclusive (record s { mutex = cancel s.mutex w })
unfolding cancel
stop-Exclusive s w v armed = record {
  owner =
      if-elim (λ m. length s.holders + held m.granted_to ≡ flag m.locked)
        (s.mutex.awaiter w).claimed s.mutex _ (λ _. v.owner) (λ _. v.owner);
  good = cancel-Good s.mutex s.seen s.left w v.good armed;
}

Step-Exclusive : {s t : System} → Step s t → Exclusive s → Exclusive t
Step-Exclusive {s} (acquires w new ready) v = acquire-Exclusive s w v new ready
Step-Exclusive {s} (suspends w new busy) v = suspend-Exclusive s w v new busy
Step-Exclusive {s} (refuses w new busy) v = refuse-Exclusive s w v new
Step-Exclusive {s} (stops w armed) v = stop-Exclusive s w v armed
Step-Exclusive {s} (resumes w once here) v = resume-Exclusive s w v (due_now s w v once here)
Step-Exclusive {s} (unlocks w ex m h e) v = unlock-Exclusive s w ex m v h e
Step-Exclusive {s} (destroys w ex m e) v = destroy-Exclusive s w ex m v e

start-Exclusive : Exclusive start
unfolding start async_mutex
start-Exclusive = record {
  owner = refl;
  good = λ v. record {
    once = omega arith;
    alone = omega arith;
    linked = omega arith;
    granted = refl;
    won = omega arith;
    kept = omega arith;
    quiet = omega arith;
    due = omega arith;
    served = omega arith;
    known = omega arith;
  };
}

-- Whatever coroutines that lock once each, their stop tokens, their calls of unlock, the executors
-- that keep or destroy a coroutine given to them, and the destruction of awaiters do, in any order:
-- the mutex is locked exactly when one coroutine holds it or is being handed it, and two never do;
-- an awaiter is posted once at most, only when claimed, and has by then been granted the lock or
-- canceled; and while the mutex is unlocked every awaiter that waits is claimed already.
pub Reach-Exclusive : {s : System} → Reach s → Exclusive s
Reach-Exclusive begin = start-Exclusive
Reach-Exclusive (then_ reach step) = Step-Exclusive step (Reach-Exclusive reach)
