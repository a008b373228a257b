-- ===== src/Exec/Strand/Invariant.antt =====
-- At most one driver at a time, and one whenever there is work.
use capy.Base.{
  ℕ, ◌≤◌, ◌≡◌, refl, sym, ap, subst, Bool, true, false, List, [], ◌∷◌, ◌++◌, Option, some, arith,
  length, length-append,
}
use capy.Exec.Strand.{
  enqueue, withdraw, abandon_pending, dispatch_pending, try_unlock, set_dispatch_thread,
  clear_dispatch_thread, shutdown, front,
}
use capy.Exec.Strand.System.{
  Driver, Fate, owing, again, at_top, running, System, post, invoker_posted, post_failed,
  post_failed_again, invoker_runs, resume_next, batch_done, cleared, shut_down, invoker_dropped,
  drops, Step, posts, starts, starts_again, throws, throws_again, runs, resumes, ends, clears,
  closes, start, Reach, begin, then_,
}

-- While its invoker has not been posted, a continuation stays first in the queue.
abbrev pub IsFirst : List Driver → List ℕ → Type 0
IsFirst [] pending = Unit {0}
IsFirst (owing c ∷ ds) pending = front pending ≡ some c
IsFirst (again ∷ ds) pending = Unit {0}
IsFirst (at_top ∷ ds) pending = Unit {0}
IsFirst (running t batch ∷ ds) pending = Unit {0}

pub record Inv (s : System) : Type 0 where
  pub one : length s.drivers ≤ 1
  pub idle : s.strand.locked ≡ false → s.drivers ≡ []
  pub served :
      s.dropped ≡ false → s.strand.service ≡ true → s.strand.locked ≡ true → length s.drivers ≡ 1
  pub quiet : s.strand.locked ≡ false → s.strand.pending ≡ []
  pub closed : s.strand.service ≡ false → s.strand.pending ≡ []
  pub first : s.strand.service ≡ true → IsFirst s.drivers s.strand.pending

-- The only driver of a list of at most one.
pub sole {ℓ} :
    {A : Type ℓ} (l xs ys : List A) (d : A)
    → length l ≤ 1
    → l ≡ xs ++ d ∷ ys
    → (xs ++ ys ≡ []) × (l ≡ d ∷ [])
sole l [] [] d h e = (refl, e)
sole l [] (y ∷ ys) d h e = absurd (omega (arith, ap length e))
sole l (x ∷ xs) ys d h e = absurd (omega (arith, ap length e, length-append xs (d ∷ ys)))

start-Inv : Inv start
unfolding start
start-Inv = record {
  one = omega arith;
  idle = λ _. refl;
  served = λ _ _ e. cc;
  quiet = λ _. refl;
  closed = λ e. refl;
  first = λ _. tt;
}

IsFirst-push :
    (ds : List Driver) (pending : List ℕ) (c : ℕ)
    → IsFirst ds pending
    → IsFirst ds (pending ++ c ∷ [])
IsFirst-push [] pending c h = tt
IsFirst-push (owing d ∷ ds) [] c h = absurd cc
IsFirst-push (owing d ∷ ds) (p ∷ ps) c h = h
IsFirst-push (again ∷ ds) pending c h = tt
IsFirst-push (at_top ∷ ds) pending c h = tt
IsFirst-push (running t batch ∷ ds) pending c h = tt

-- A system whose strand has the given fields, to split on them.
pub at : System → Bool → Bool → List ℕ → System
at s b l p = record s { strand = record s.strand { service = b; locked = l; pending = p } }

module _ (s : System) where
  post-at : (c : ℕ) (b l : Bool) (p : List ℕ) → Inv (at s b l p) → Inv (post (at s b l p) c)
  unfolding post enqueue at
  post-at c false l p v = v
  post-at c true true p v = record {
    one = v.one;
    idle = λ e. cc;
    served = v.served;
    quiet = λ e. cc;
    closed = λ e. cc;
    first = λ e. IsFirst-push s.drivers p c (v.first e);
  }
  post-at c true false p v = record {
    one = omega (arith, ap length (v.idle refl));
    idle = λ e. cc;
    served = λ _ _ _. omega (arith, ap length (v.idle refl));
    quiet = λ e. cc;
    closed = λ e. cc;
    first = λ _. ap (λ l. front (l ++ c ∷ [])) (v.quiet refl);
  }

  -- The strand of a system with a driver is locked.
  busy : {d : Driver} → Inv s → s.drivers ≡ d ∷ [] → s.strand.locked ≡ false → ⊥
  busy v e f = omega (arith, ap length e, ap length (v.idle f))

  -- The driver moves on and the strand keeps its lock.
  advance :
      (d : Driver) (p : List ℕ) {e : Driver}
      → Inv s
      → s.drivers ≡ e ∷ []
      → ((q : List ℕ) → IsFirst (d ∷ []) q)
      → (s.strand.service ≡ false → p ≡ [])
      → (n : Option ℕ) (gone : List (ℕ × Fate)) (done : List ℕ)
      → Inv (record s {
        strand = record s.strand { pending = p; dispatch_thread = n };
        drivers = d ∷ [];
        departed = gone;
        resumed = done;
      })
  advance d p v e fst shut n gone done = record {
    one = omega arith;
    idle = λ f. absurd (busy v e f);
    served = λ _ _ _. refl;
    quiet = λ f. absurd (busy v e f);
    closed = shut;
    first = λ _. fst p;
  }

  post_failed-at :
      (c : ℕ) (b l : Bool) (p : List ℕ)
      → Inv (at s b l p)
      → s.drivers ≡ owing c ∷ []
      → Inv (post_failed (at s b l p) c [])
  unfolding post_failed withdraw at
  post_failed-at c false l p v e = record {
    one = omega arith;
    idle = λ _. refl;
    served = λ _ f. cc;
    quiet = v.quiet;
    closed = v.closed;
    first = λ f. cc;
  }
  post_failed-at c true l [] v e = absurd (cc (subst (λ d. IsFirst d []) e (v.first refl)))
  post_failed-at c true l (p ∷ []) v e = record {
    one = omega arith;
    idle = λ _. refl;
    served = λ _ _ f. cc;
    quiet = λ _. refl;
    closed = λ f. cc;
    first = λ _. tt;
  }
  post_failed-at c true l (p ∷ q ∷ ps) v e = record {
    one = omega arith;
    idle = λ f. absurd (omega (arith, ap length e, ap length (v.idle f)));
    served = λ _ _ _. refl;
    quiet = λ f. absurd (omega (arith, ap length e, ap length (v.idle f)));
    closed = λ f. cc;
    first = λ _. tt;
  }

  post_failed_again-at :
      (b l : Bool) (p : List ℕ) → Inv (at s b l p) → Inv (post_failed_again (at s b l p) [])
  unfolding post_failed_again abandon_pending at
  post_failed_again-at false l p v = record {
    one = omega arith;
    idle = λ _. refl;
    served = λ _ f. cc;
    quiet = v.quiet;
    closed = v.closed;
    first = λ f. cc;
  }
  post_failed_again-at true l p v = record {
    one = omega arith;
    idle = λ _. refl;
    served = λ _ _ f. cc;
    quiet = λ _. refl;
    closed = λ f. cc;
    first = λ _. tt;
  }

  batch_done-at :
      (t : ℕ) (b l : Bool) (p : List ℕ) {e : Driver}
      → Inv (at s b l p)
      → s.drivers ≡ e ∷ []
      → Inv (batch_done (at s b l p) t [])
  unfolding batch_done try_unlock at
  batch_done-at t b l [] v e = record {
    one = omega arith;
    idle = λ _. refl;
    served = λ _ _ f. cc;
    quiet = λ _. refl;
    closed = λ _. refl;
    first = λ _. tt;
  }
  batch_done-at t b l (p ∷ ps) v e = record {
    one = omega arith;
    idle = λ f. absurd (omega (arith, ap length e, ap length (v.idle f)));
    served = λ _ _ _. refl;
    quiet = v.quiet;
    closed = v.closed;
    first = λ _. tt;
  }

  shut_down-Inv : Inv s → Inv (shut_down s)
  unfolding shut_down shutdown
  shut_down-Inv v = record {
    one = v.one;
    idle = λ f. cc;
    served = λ _ f. cc;
    quiet = λ _. refl;
    closed = λ _. refl;
    first = λ f. cc;
  }

  invoker_dropped-Inv : Inv s → Inv (invoker_dropped s [])
  unfolding invoker_dropped
  invoker_dropped-Inv v = record {
    one = omega arith;
    idle = λ _. refl;
    served = λ f. cc;
    quiet = v.quiet;
    closed = v.closed;
    first = λ _. tt;
  }

-- Every step of every thread keeps the invariant.
pub Step-Inv : {s t : System} → Step s t → Inv s → Inv t
unfolding invoker_posted invoker_runs resume_next cleared dispatch_pending set_dispatch_thread at
    clear_dispatch_thread
Step-Inv {s} (posts c) v = post-at s c s.strand.service s.strand.locked s.strand.pending v
Step-Inv {s} (starts xs ys c e) v =
    let (none_else, only) = sole s.drivers xs ys (owing c) v.one e in
    subst (λ o. Inv (record s { drivers = at_top ∷ o })) (sym none_else)
      (advance s at_top s.strand.pending v only (λ _. tt) v.closed s.strand.dispatch_thread
        s.departed s.resumed)
Step-Inv {s} (starts_again xs ys e) v =
    let (none_else, only) = sole s.drivers xs ys again v.one e in
    subst (λ o. Inv (record s { drivers = at_top ∷ o })) (sym none_else)
      (advance s at_top s.strand.pending v only (λ _. tt) v.closed s.strand.dispatch_thread
        s.departed s.resumed)
Step-Inv {s} (throws xs ys c e) v =
    let (none_else, only) = sole s.drivers xs ys (owing c) v.one e in
    subst (λ o. Inv (post_failed s c o)) (sym none_else)
      (post_failed-at s c s.strand.service s.strand.locked s.strand.pending v only)
Step-Inv {s} (throws_again xs ys e) v =
    let (none_else, only) = sole s.drivers xs ys again v.one e in
    subst (λ o. Inv (post_failed_again s o)) (sym none_else)
      (post_failed_again-at s s.strand.service s.strand.locked s.strand.pending v)
Step-Inv {s} (runs xs ys t e) v =
    let (none_else, only) = sole s.drivers xs ys at_top v.one e in
    subst (λ o. Inv (invoker_runs s t o)) (sym none_else)
      (advance s (running t s.strand.pending) [] v only (λ _. tt) (λ _. refl) (some t)
        (invoker_runs s t []).departed s.resumed)
Step-Inv {s} (resumes xs ys t c batch e) v =
    let (none_else, only) = sole s.drivers xs ys (running t (c ∷ batch)) v.one e in
    subst (λ o. Inv (resume_next s t c batch o)) (sym none_else)
      (advance s (running t batch) s.strand.pending v only (λ _. tt) v.closed
        s.strand.dispatch_thread s.departed (s.resumed ++ c ∷ []))
Step-Inv {s} (ends xs ys t e) v =
    let (none_else, only) = sole s.drivers xs ys (running t []) v.one e in
    subst (λ o. Inv (batch_done s t o)) (sym none_else)
      (batch_done-at s t s.strand.service s.strand.locked s.strand.pending v only)
Step-Inv (clears xs ys t e) v = record {
  one = v.one;
  idle = v.idle;
  served = v.served;
  quiet = v.quiet;
  closed = v.closed;
  first = v.first;
}
Step-Inv {s} (drops xs ys e) v =
    let (none_else, only) = sole s.drivers xs ys at_top v.one e in
    subst (λ o. Inv (invoker_dropped s o)) (sym none_else) (invoker_dropped-Inv s v)
Step-Inv {s} closes v = shut_down-Inv s v

-- In every reachable state a strand has at most one driver (a caller that owes it an invoker, or
-- its invoker), has one while it is open and locked and no invoker was dropped, is empty while
-- unlocked or shut down, and keeps first the continuation that an invoker is owed for.
pub Reach-Inv : {s : System} → Reach s → Inv s
Reach-Inv begin = start-Inv
Reach-Inv (then_ r st) = Step-Inv st (Reach-Inv r)
