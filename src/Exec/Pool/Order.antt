-- ===== src/Exec/Pool/Order.antt =====
-- What every execution of a thread pool keeps: order, staffing, and that `join` is released.
use capy.Base.{
  ℕ, ◌+◌, ◌-◌, ◌%◌, max, ◌<◌, ◌≡◌, refl, ap, subst, inl, inr, arith, Bool, true, false, ◌||◌, ◌&&◌,
  [], ◌∷◌, ◌++◌, some, Bool-cases, ◌==◌, size_mod, if-elim,
}
use capy.Exec.Queue.{pop}
use capy.Exec.Queue.Refine.{Represents, pop-nil}
use capy.Exec.Pool.{Pool, create, on_work_started, release_fast, release_last, join_begin, stop}
use capy.Exec.Pool.System.{
  pushing, System, Step, posts_started, posts_unstarted, starts, pushes, work_started,
  work_released, work_finished, joins, stops, works, drains, start, Reach, begin, then_, begin_push,
  work, work_done,
}
use capy.Exec.Pool.Invariant.{
  Staffed, Ordered, Inv, Inv-post, Inv-push, Inv-start, Inv-pool, Ordered-same,
}
use capy.Exec.Pool.Turns.{Inv-work, Inv-drain, worker_turn-takes}

start-Inv : (concurrency n : ℕ) → Inv (start concurrency n)
unfolding start create
start-Inv concurrency n = record {
  staffed = record {
    settled = λ j. absurd cc;
    some_thread =
        if-elim (λ k. 0 < k) (n == 0) (max concurrency 1) n (λ _. omega arith)
          (λ h. ground (arith, h));
    all_threads = λ e. absurd cc;
    no_threads = λ _. refl;
    counted = refl;
    ended = λ _. refl;
  };
  ready = tt;
  ordered = record {
    queue = [];
    represents = record { chain = refl; tail = refl; distinct = tt };
    order = refl;
    drained = λ _. refl;
    served = λ _ _. refl;
  };
}

Inv-begin_push :
    (s : System) (c : ℕ) → s.pool.started ≡ true → Inv s → Inv (begin_push s c s.postings)
unfolding begin_push
Inv-begin_push s c on v = record {
  staffed = v.staffed;
  ready = (λ _. on, v.ready);
  ordered =
      Ordered-same s s.pool (pushing c ∷ s.postings) s.working s.finished refl (λ h. h) (λ h. h)
        v.ordered;
}

Inv-join : (s : System) → Inv s → Inv (record s { pool = join_begin s.pool })
unfolding join_begin
Inv-join s v =
    if-elim (λ p. Inv (record s { pool = p })) s.pool.joined s.pool
      (record s.pool { joined = true; stop_ = s.pool.stop_ || (s.pool.outstanding_work == 0) })
      (λ _. v)
      (λ _.
        Inv-pool s s.pool.outstanding_work (s.pool.stop_ || (s.pool.outstanding_work == 0)) true
          (λ h. ground (arith, h)) (λ j z. ground (arith, z)) v)

release_stops : (a joined : Bool) (n : ℕ) → n ≡ 0 → joined ≡ true → a || ((n == 0) && joined) ≡ true
release_stops a joined n z j = ground (arith, z, j)

Inv-released : (s : System) → Inv s → Inv (record s { pool = release_last s.pool })
unfolding release_last
Inv-released s v =
    let n = (s.pool.outstanding_work + (size_mod - 1)) % size_mod in
    Inv-pool s n (s.pool.stop_ || ((n == 0) && s.pool.joined)) s.pool.joined
      (λ h. ground (arith, h)) (λ j z. release_stops s.pool.stop_ s.pool.joined n z j) v

Step-Inv : {s t : System} → Step s t → Inv s → Inv t
unfolding on_work_started release_fast stop
Step-Inv {s} (posts_started c on) v = Inv-begin_push s c on v
Step-Inv {s} (posts_unstarted c new) v = Inv-post s c new v
Step-Inv {s} (starts xs ys c e) v = Inv-start s xs ys c e v
Step-Inv {s} (pushes xs ys c e new) v = Inv-push s xs ys c e new v
Step-Inv {s} (work_started h) v =
    Inv-pool s ((s.pool.outstanding_work + 1) % size_mod) s.pool.stop_ s.pool.joined (λ e. e)
      (λ j z. absurd (omega (arith, h, z))) v
Step-Inv {s} (work_released h) v =
    Inv-pool s (s.pool.outstanding_work - 1) s.pool.stop_ s.pool.joined (λ e. e)
      (λ j z. absurd (omega (arith, h, z))) v
Step-Inv {s} work_finished v = Inv-released s v
Step-Inv {s} joins v = Inv-join s v
Step-Inv {s} stops v =
    Inv-pool s s.pool.outstanding_work true s.pool.joined (λ _. refl) (λ _ _. refl) v
Step-Inv {s} (works w busy) v = Inv-work s w busy v
Step-Inv {s} (drains over idle) v = Inv-drain s over v

Reach-PoolInv : {concurrency n : ℕ} {s : System} → Reach concurrency n s → Inv s
Reach-PoolInv {concurrency} {n} begin = start-Inv concurrency n
Reach-PoolInv (then_ r st) = Step-Inv st (Reach-PoolInv r)

-- In every state that a pool's users, workers and destructor can reach, the intrusive queue is a
-- well-formed list, and what workers resumed, then what was drained, then that list is what was
-- pushed, in order; nothing is drained before the stop.
pub Reach-Ordered : (concurrency n : ℕ) (s : System) → Reach concurrency n s → Ordered s
Reach-Ordered concurrency n s r = (Reach-PoolInv r).ordered

-- In every reachable state a joined pool whose count of work is zero is stopped, and a started pool
-- has all its threads, none of which has left its loop before the stop.
pub Reach-Staffed :
    (concurrency n : ℕ) (s : System) → Reach concurrency n s → Staffed s.pool s.working s.finished
Reach-Staffed concurrency n s r = (Reach-PoolInv r).staffed

-- A worker that can take the turn in which it resumes `c`.
pub record Served (s : System) (c : ℕ) : Type 0 where
  pub others : ℕ
  pub busy : s.working ≡ others + 1
  pub resumed : (work s others).resumed ≡ s.resumed ++ c ∷ []

worker_left : (p : Pool) (w f : ℕ) → Staffed p w f → p.started ≡ true → p.stop_ ≡ false → 0 < w
worker_left p w f v on open_ =
    omega (arith, v.some_thread, v.all_threads on, v.counted, v.ended open_)

-- In every reachable state that is not stopped, a queued continuation that is first finds a worker
-- in its loop whose next turn resumes it.
pub Reach-Served :
    (concurrency n : ℕ) (s : System) (c : ℕ)
    → Reach concurrency n s
    → s.pool.stop_ ≡ false
    → (pop s.pool.queue).1 ≡ some c
    → Served s c
unfolding work work_done
Reach-Served concurrency n s c r open_ first =
    let v = Reach-PoolInv r in
    let on : s.pool.started ≡ true = elim (Bool-cases s.pool.started) [
      | inl on ↦ on
      | inr off ↦
          let r =
            pop-nil s.pool.queue
              (subst (Represents s.pool.queue) (v.ordered.served open_ off) v.ordered.represents) in
          absurd (cc (first, ap (λ x. x.1) r))
    ] in
    let some_worker = worker_left s.pool s.working s.finished v.staffed on open_ in
    record {
      others = s.working - 1;
      busy = omega (arith, some_worker);
      resumed =
          ap (λ t. (work_done s (s.working - 1) t).resumed)
            (worker_turn-takes s.pool c open_ first);
    }
