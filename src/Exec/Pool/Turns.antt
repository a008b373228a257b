-- ===== src/Exec/Pool/Turns.antt =====
-- The turns of a pool's workers, and of the drain in its destructor.
use capy.Base.{
  ℕ, ◌+◌, ◌≡◌, refl, sym, ap, ap₂, subst, ◌∙◌, inl, inr, arith, true, false, List, [], ◌∷◌, ◌++◌,
  none, some, Bool-cases, List-cases, append_assoc, append-nil, if◌then◌else◌,
}
use capy.Exec.Queue.{pop}
use capy.Exec.Queue.Refine.{Represents, pop-Represents, pop-nil}
use capy.Exec.Pool.{Pool, waits, ends, resumes, take_next, worker_turn, drain_next}
use capy.Exec.Pool.System.{System, work, work_done, drain, drain_done}
use capy.Exec.Pool.Invariant.{Inv, Ordered-same, Ready-grow}

worker_turn-stopped : (p : Pool) → p.stop_ ≡ true → worker_turn p ≡ (p, ends)
unfolding worker_turn
worker_turn-stopped p h = ap (λ b. if b then (p, ends) else take_next p (pop p.queue)) h

worker_turn-empty :
    (p : Pool) → p.stop_ ≡ false → (pop p.queue).1 ≡ none → worker_turn p ≡ (p, waits)
unfolding worker_turn take_next
worker_turn-empty p h e = ap₂ (λ b o. if b then (p, ends) else take_next p ((pop p.queue).0, o)) h e

-- A worker that has not been stopped takes the first continuation.
pub worker_turn-takes :
    (p : Pool) (c : ℕ)
    → p.stop_ ≡ false
    → (pop p.queue).1 ≡ some c
    → worker_turn p ≡ (record p { queue = (pop p.queue).0 }, resumes c)
unfolding worker_turn take_next
worker_turn-takes p c h e =
    ap₂ (λ b o. if b then (p, ends) else take_next p ((pop p.queue).0, o)) h e

module _ (rs ds qs ps : List ℕ) (c : ℕ) (cs : List ℕ) where
  order_drained : qs ≡ c ∷ cs → rs ++ ds ++ qs ≡ ps → rs ++ (ds ++ c ∷ []) ++ cs ≡ ps
  order_drained e h =
      ap (λ l. l ++ cs) (sym (append_assoc rs ds (c ∷ [])))
      ∙ append_assoc (rs ++ ds) (c ∷ []) cs
      ∙ ap (λ l. rs ++ ds ++ l) (sym e)
      ∙ h

  order_resumed : ds ≡ [] → qs ≡ c ∷ cs → rs ++ ds ++ qs ≡ ps → rs ++ c ∷ [] ++ ds ++ cs ≡ ps
  order_resumed idle e h =
      ap (λ l. rs ++ c ∷ [] ++ l ++ cs) idle
      ∙ ap (λ l. l ++ cs)
          (append-nil (rs ++ c ∷ [])
            ∙ ap (λ l. l ++ c ∷ []) (sym (append-nil rs))
            ∙ append_assoc rs [] (c ∷ []))
      ∙ ap (λ l. rs ++ (l ++ c ∷ []) ++ cs) (sym idle)
      ∙ order_drained e h

-- The first continuation of the queue goes to those that workers resume.
Inv-resumes :
    (s : System) (w c : ℕ) (cs : List ℕ)
    → s.pool.stop_ ≡ false
    → s.working ≡ w + 1
    → (v : Inv s) → v.ordered.queue ≡ c ∷ cs
    → Inv (work s w)
unfolding work work_done
Inv-resumes s w c cs open_ busy v e =
    let r =
      pop-Represents s.pool.queue c cs (subst (Represents s.pool.queue) e v.ordered.represents) in
    let idle = v.ordered.drained open_ in
    subst (λ t. Inv (work_done s w t)) (sym (worker_turn-takes s.pool c open_ r.0))
      (record {
        staffed = record {
          settled = v.staffed.settled;
          some_thread = v.staffed.some_thread;
          all_threads = v.staffed.all_threads;
          no_threads = v.staffed.no_threads;
          counted = v.staffed.counted;
          ended = v.staffed.ended;
        };
        ready =
            Ready-grow s.pool (record s.pool { queue = (pop s.pool.queue).0 }) (λ h. h) (λ h. h)
              s.postings v.ready;
        ordered = record {
          queue = cs;
          represents = r.1;
          order =
              order_resumed s.resumed s.abandoned v.ordered.queue s.pushed c cs idle e
                v.ordered.order;
          drained = v.ordered.drained;
          served = λ h k. absurd (cc (e, v.ordered.served h k));
        };
      })

pub Inv-work : (s : System) (w : ℕ) → s.working ≡ w + 1 → Inv s → Inv (work s w)
unfolding work work_done
Inv-work s w busy v = elim (Bool-cases s.pool.stop_) [
  | inl over ↦
      subst (λ t. Inv (work_done s w t)) (sym (worker_turn-stopped s.pool over))
        (record {
          staffed = record {
            settled = v.staffed.settled;
            some_thread = v.staffed.some_thread;
            all_threads = v.staffed.all_threads;
            no_threads = v.staffed.no_threads;
            counted = omega (arith, v.staffed.counted, busy);
            ended = λ h. absurd (cc (over, h));
          };
          ready = v.ready;
          ordered =
              Ordered-same s s.pool s.postings w (s.finished + 1) refl (λ h. h) (λ h. h) v.ordered;
        })
  | inr open_ ↦ elim (List-cases v.ordered.queue) [
    | inl none_left ↦
        let r =
          pop-nil s.pool.queue (subst (Represents s.pool.queue) none_left v.ordered.represents) in
        subst (λ t. Inv (work_done s w t)) (sym (worker_turn-empty s.pool open_ (ap (λ x. x.1) r)))
          v
    | inr (c, cs, e) ↦ Inv-resumes s w c cs open_ busy v e
  ]
]

pub Inv-drain : (s : System) → s.pool.stop_ ≡ true → Inv s → Inv (drain s)
unfolding drain drain_done drain_next
Inv-drain s over v = elim (List-cases v.ordered.queue) [
  | inl none_left ↦
      let r =
        pop-nil s.pool.queue (subst (Represents s.pool.queue) none_left v.ordered.represents) in
      subst (λ o. Inv (drain_done s (record s.pool { queue = o.0 }, o.1))) (sym r) v
  | inr (c, cs, e) ↦
      let r =
        pop-Represents s.pool.queue c cs (subst (Represents s.pool.queue) e v.ordered.represents) in
      subst (λ o. Inv (drain_done s (record s.pool { queue = (pop s.pool.queue).0 }, o))) (sym r.0)
        (record {
          staffed = record {
            settled = v.staffed.settled;
            some_thread = v.staffed.some_thread;
            all_threads = v.staffed.all_threads;
            no_threads = v.staffed.no_threads;
            counted = v.staffed.counted;
            ended = v.staffed.ended;
          };
          ready =
              Ready-grow s.pool (record s.pool { queue = (pop s.pool.queue).0 }) (λ h. h) (λ h. h)
                s.postings v.ready;
          ordered = record {
            queue = cs;
            represents = r.1;
            order =
                order_drained s.resumed s.abandoned v.ordered.queue s.pushed c cs e v.ordered.order;
            drained = λ h. absurd (cc (over, h));
            served = λ h k. absurd (cc (over, h));
          };
        })
]
