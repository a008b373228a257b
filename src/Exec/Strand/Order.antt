-- ===== src/Exec/Strand/Order.antt =====
-- Continuations leave a strand in the order in which they came, each once and with one fate.
use capy.Base.{
  ℕ, ◌≡◌, refl, sym, ap, subst, ◌∙◌, Bool, true, false, List, [], ◌∷◌, ◌++◌, some, append-nil,
  append_assoc,
}
use capy.Exec.Strand.{
  enqueue, withdraw, abandon_pending, dispatch_pending, try_unlock, set_dispatch_thread,
  clear_dispatch_thread, shutdown, destroy, front,
}
use capy.Exec.Strand.System.{
  Driver, owing, again, at_top, running, Fate, taken_to_run, given_up, handed_back, with_fate,
  System, post, invoker_posted, post_failed, post_failed_again, invoker_runs, resume_next,
  batch_done, cleared, shut_down, invoker_dropped, destroyed, drops, Step, posts, starts,
  starts_again, throws, throws_again, runs, resumes, ends, clears, closes, start, Reach, begin,
  then_,
}
use capy.Exec.Strand.Invariant.{Inv, IsFirst, sole, Reach-Inv}

abbrev pub ids : List (ℕ × Fate) → List ℕ
ids [] = []
ids ((c, f) ∷ l) = c ∷ ids l

-- Those that left the queue for a batch.
abbrev pub ran : List (ℕ × Fate) → List ℕ
ran [] = []
ran ((c, taken_to_run) ∷ l) = c ∷ ran l
ran ((c, given_up) ∷ l) = ran l
ran ((c, handed_back) ∷ l) = ran l

-- Those that stand in a batch and have not been resumed.
abbrev pub in_batches : List Driver → List ℕ
in_batches [] = []
in_batches (owing c ∷ ds) = in_batches ds
in_batches (again ∷ ds) = in_batches ds
in_batches (at_top ∷ ds) = in_batches ds
in_batches (running t batch ∷ ds) = batch ++ in_batches ds

pub record IsOrdered (s : System) : Type 0 where
  -- what left the queue, and then what is in it, is what entered it, in the order of entry
  pub queue : ids s.departed ++ s.strand.pending ≡ s.accepted
  -- what was resumed, and then what is about to be, is what was taken to run, in that order
  pub batch : s.resumed ++ in_batches s.drivers ≡ ran s.departed

ids-append :
    (l : List (ℕ × Fate)) (f : Fate) (cs : List ℕ) → ids (l ++ with_fate f cs) ≡ ids l ++ cs
ids-append [] f [] = refl
ids-append [] f (c ∷ cs) = ap (◌∷◌ c) (ids-append [] f cs)
ids-append ((c, g) ∷ l) f cs = ap (◌∷◌ c) (ids-append l f cs)

ran-append_run :
    (l : List (ℕ × Fate)) (cs : List ℕ) → ran (l ++ with_fate taken_to_run cs) ≡ ran l ++ cs
ran-append_run [] [] = refl
ran-append_run [] (c ∷ cs) = ap (◌∷◌ c) (ran-append_run [] cs)
ran-append_run ((c, taken_to_run) ∷ l) cs = ap (◌∷◌ c) (ran-append_run l cs)
ran-append_run ((c, given_up) ∷ l) cs = ran-append_run l cs
ran-append_run ((c, handed_back) ∷ l) cs = ran-append_run l cs

ran-append_give : (l : List (ℕ × Fate)) (cs : List ℕ) → ran (l ++ with_fate given_up cs) ≡ ran l
ran-append_give [] [] = refl
ran-append_give [] (c ∷ cs) = ran-append_give [] cs
ran-append_give ((c, taken_to_run) ∷ l) cs = ap (◌∷◌ c) (ran-append_give l cs)
ran-append_give ((c, given_up) ∷ l) cs = ran-append_give l cs
ran-append_give ((c, handed_back) ∷ l) cs = ran-append_give l cs

ran-append_back : (l : List (ℕ × Fate)) (c : ℕ) → ran (l ++ (c, handed_back) ∷ []) ≡ ran l
ran-append_back [] c = refl
ran-append_back ((d, taken_to_run) ∷ l) c = ap (◌∷◌ d) (ran-append_back l c)
ran-append_back ((d, given_up) ∷ l) c = ran-append_back l c
ran-append_back ((d, handed_back) ∷ l) c = ran-append_back l c

abbrev at : System → Bool → Bool → List ℕ → System
at s b l p = record s { strand = record s.strand { service = b; locked = l; pending = p } }

module _ (s : System) where
  post-at :
      (c : ℕ) (b l : Bool) (p : List ℕ) → IsOrdered (at s b l p) → IsOrdered (post (at s b l p) c)
  unfolding post enqueue
  post-at c false l p v = v
  post-at c true true p v = record {
    queue = sym (append_assoc (ids s.departed) p (c ∷ [])) ∙ ap (λ l. l ++ c ∷ []) v.queue;
    batch = v.batch;
  }
  post-at c true false p v = record {
    queue = sym (append_assoc (ids s.departed) p (c ∷ [])) ∙ ap (λ l. l ++ c ∷ []) v.queue;
    batch = v.batch;
  }

  -- The first of the queue goes to the end of what has left it.
  front_back :
      (c : ℕ) (rest : List ℕ)
      → ids (s.departed ++ (c, handed_back) ∷ []) ++ rest ≡ ids s.departed ++ c ∷ rest
  front_back c rest =
      ap (λ l. l ++ rest) (ids-append s.departed handed_back (c ∷ []))
      ∙ append_assoc (ids s.departed) (c ∷ []) rest

  -- The whole queue does.
  all_gone :
      (f : Fate) (p : List ℕ)
      → ids s.departed ++ p ≡ s.accepted
      → ids (s.departed ++ with_fate f p) ++ [] ≡ s.accepted
  all_gone f p e = append-nil _ ∙ ids-append s.departed f p ∙ e

  post_failed-at :
      (c : ℕ) (b l : Bool) (p : List ℕ)
      → IsOrdered (at s b l p)
      → s.drivers ≡ owing c ∷ []
      → (b ≡ true → front p ≡ some c)
      → IsOrdered (post_failed (at s b l p) c [])
  unfolding post_failed withdraw
  post_failed-at c false l p v e fst = record {
    queue = v.queue;
    batch = ap (λ d. s.resumed ++ in_batches d) (sym e) ∙ v.batch;
  }
  post_failed-at c true l [] v e fst = absurd (cc (fst refl))
  post_failed-at c true l (p ∷ []) v e fst = record {
    queue = front_back c [] ∙ ap (λ d. ids s.departed ++ d ∷ []) (cc (fst refl)) ∙ v.queue;
    batch =
        ap (λ d. s.resumed ++ in_batches d) (sym e) ∙ v.batch ∙ sym (ran-append_back s.departed c);
  }
  post_failed-at c true l (p ∷ q ∷ ps) v e fst = record {
    queue =
        front_back c (q ∷ ps) ∙ ap (λ d. ids s.departed ++ d ∷ q ∷ ps) (cc (fst refl)) ∙ v.queue;
    batch =
        ap (λ d. s.resumed ++ in_batches d) (sym e) ∙ v.batch ∙ sym (ran-append_back s.departed c);
  }

  post_failed_again-at :
      (b l : Bool) (p : List ℕ)
      → IsOrdered (at s b l p)
      → s.drivers ≡ again ∷ []
      → IsOrdered (post_failed_again (at s b l p) [])
  unfolding post_failed_again abandon_pending
  post_failed_again-at false l p v e = record {
    queue = ap (λ k. ids k ++ p) (append-nil s.departed) ∙ v.queue;
    batch =
        ap (λ d. s.resumed ++ in_batches d) (sym e)
        ∙ v.batch
        ∙ ap ran (sym (append-nil s.departed));
  }
  post_failed_again-at true l p v e = record {
    queue = all_gone given_up p v.queue;
    batch =
        ap (λ d. s.resumed ++ in_batches d) (sym e) ∙ v.batch ∙ sym (ran-append_give s.departed p);
  }

  invoker_runs-IsOrdered :
      (t : ℕ) → IsOrdered s → s.drivers ≡ at_top ∷ [] → IsOrdered (invoker_runs s t [])
  unfolding invoker_runs dispatch_pending set_dispatch_thread
  invoker_runs-IsOrdered t v e = record {
    queue = all_gone taken_to_run s.strand.pending v.queue;
    batch =
        ap (λ k. s.resumed ++ k) (append-nil s.strand.pending)
        ∙ ap (λ k. k ++ s.strand.pending)
            (sym (append-nil s.resumed) ∙ ap (λ d. s.resumed ++ in_batches d) (sym e) ∙ v.batch)
        ∙ sym (ran-append_run s.departed s.strand.pending);
  }

  resume_next-IsOrdered :
      (t c : ℕ) (batch : List ℕ)
      → IsOrdered s
      → s.drivers ≡ running t (c ∷ batch) ∷ []
      → IsOrdered (resume_next s t c batch [])
  unfolding resume_next
  resume_next-IsOrdered t c batch v e = record {
    queue = v.queue;
    batch =
        append_assoc s.resumed (c ∷ []) (batch ++ [])
        ∙ ap (λ d. s.resumed ++ in_batches d) (sym e)
        ∙ v.batch;
  }

  batch_done-at :
      (t : ℕ) (b l : Bool) (p : List ℕ)
      → IsOrdered (at s b l p)
      → s.drivers ≡ running t [] ∷ []
      → IsOrdered (batch_done (at s b l p) t [])
  unfolding batch_done try_unlock
  batch_done-at t b l [] v e = record {
    queue = v.queue;
    batch = ap (λ d. s.resumed ++ in_batches d) (sym e) ∙ v.batch;
  }
  batch_done-at t b l (p ∷ ps) v e = record {
    queue = v.queue;
    batch = ap (λ d. s.resumed ++ in_batches d) (sym e) ∙ v.batch;
  }

  shut_down-IsOrdered : IsOrdered s → IsOrdered (shut_down s)
  unfolding shut_down shutdown
  shut_down-IsOrdered v = record {
    queue = all_gone given_up s.strand.pending v.queue;
    batch = v.batch ∙ sym (ran-append_give s.departed s.strand.pending);
  }

  -- A driver that has no batch, in place of another.
  no_batch :
      {d e : Driver}
      → in_batches (d ∷ []) ≡ in_batches (e ∷ [])
      → s.drivers ≡ e ∷ []
      → IsOrdered s
      → IsOrdered (record s { drivers = d ∷ [] })
  no_batch same only v = record {
    queue = v.queue;
    batch = ap (λ k. s.resumed ++ k) (same ∙ ap in_batches (sym only)) ∙ v.batch;
  }

pub Step-IsOrdered : {s t : System} → Step s t → Inv s → IsOrdered s → IsOrdered t
unfolding invoker_posted cleared clear_dispatch_thread invoker_dropped
Step-IsOrdered {s} (posts c) v o = post-at s c s.strand.service s.strand.locked s.strand.pending o
Step-IsOrdered {s} (starts xs ys c e) v o =
    let (none_else, only) = sole s.drivers xs ys (owing c) v.one e in
    subst (λ k. IsOrdered (invoker_posted s k)) (sym none_else) (no_batch s refl only o)
Step-IsOrdered {s} (starts_again xs ys e) v o =
    let (none_else, only) = sole s.drivers xs ys again v.one e in
    subst (λ k. IsOrdered (invoker_posted s k)) (sym none_else) (no_batch s refl only o)
Step-IsOrdered {s} (throws xs ys c e) v o =
    let (none_else, only) = sole s.drivers xs ys (owing c) v.one e in
    subst (λ k. IsOrdered (post_failed s c k)) (sym none_else)
      (post_failed-at s c s.strand.service s.strand.locked s.strand.pending o only
        (λ open_. subst (λ d. IsFirst d s.strand.pending) only (v.first open_)))
Step-IsOrdered {s} (throws_again xs ys e) v o =
    let (none_else, only) = sole s.drivers xs ys again v.one e in
    subst (λ k. IsOrdered (post_failed_again s k)) (sym none_else)
      (post_failed_again-at s s.strand.service s.strand.locked s.strand.pending o only)
Step-IsOrdered {s} (runs xs ys t e) v o =
    let (none_else, only) = sole s.drivers xs ys at_top v.one e in
    subst (λ k. IsOrdered (invoker_runs s t k)) (sym none_else) (invoker_runs-IsOrdered s t o only)
Step-IsOrdered {s} (resumes xs ys t c batch e) v o =
    let (none_else, only) = sole s.drivers xs ys (running t (c ∷ batch)) v.one e in
    subst (λ k. IsOrdered (resume_next s t c batch k)) (sym none_else)
      (resume_next-IsOrdered s t c batch o only)
Step-IsOrdered {s} (ends xs ys t e) v o =
    let (none_else, only) = sole s.drivers xs ys (running t []) v.one e in
    subst (λ k. IsOrdered (batch_done s t k)) (sym none_else)
      (batch_done-at s t s.strand.service s.strand.locked s.strand.pending o only)
Step-IsOrdered (clears xs ys t e) v o = record { queue = o.queue; batch = o.batch }
Step-IsOrdered {s} (drops xs ys e) v o =
    let (none_else, only) = sole s.drivers xs ys at_top v.one e in
    subst (λ k. IsOrdered (invoker_dropped s k)) (sym none_else)
      (record { queue = o.queue; batch = ap (λ d. s.resumed ++ in_batches d) (sym only) ∙ o.batch })
Step-IsOrdered {s} closes v o = shut_down-IsOrdered s o

-- In every reachable state the continuations have left the strand's queue in the order in which
-- they entered it, each once and with one fate, and those in a batch are resumed in that order.
pub Reach-IsOrdered : {s : System} → Reach s → IsOrdered s
unfolding start
Reach-IsOrdered begin = record { queue = refl; batch = refl }
Reach-IsOrdered (then_ r st) = Step-IsOrdered st (Reach-Inv r) (Reach-IsOrdered r)

-- When the last handle of a strand goes and no thread drives it, every continuation that ever
-- entered its queue has left it in order with one fate, and those that were taken to run have all
-- been resumed.
pub destroyed_complete :
    {s : System}
    → Reach s
    → s.drivers ≡ []
    → (ids (destroyed s).departed ≡ s.accepted) × (s.resumed ≡ ran (destroyed s).departed)
unfolding destroyed destroy
destroyed_complete {s} r e =
    let o = Reach-IsOrdered r in
    (
      sym (append-nil _) ∙ all_gone s given_up s.strand.pending o.queue,
      sym (append-nil s.resumed)
          ∙ ap (λ d. s.resumed ++ in_batches d) (sym e)
          ∙ o.batch
          ∙ sym (ran-append_give s.departed s.strand.pending),
    )
