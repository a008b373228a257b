-- ===== src/Exec/Pool/Invariant.antt =====
-- What holds of a thread pool in every state that its users and its workers can bring about.
use capy.Base.{
  ℕ, ◌+◌, ◌-◌, max, ◌||◌, ◌<◌, ◌≡◌, refl, sym, ap, subst, ◌∙◌, ◌⊎◌, inl, inr, arith, Bool, true,
  false, List, [], ◌∷◌, ◌++◌, has, has-append_right, Bool-cases, All, append_assoc, if◌then◌else◌,
  if-elim,
}
use capy.Exec.Queue.Refine.{Represents, push-Represents}
use capy.Exec.Pool.{Pool, push_back, ensure_started}
use capy.Exec.Pool.System.{
  Posting, starting, pushing, System, post_unstarted, start_threads, push_posted,
}

-- A posting that is about to push sees to it that there is somebody to run what it pushes.
abbrev pub Ready : Pool → Posting → Type 0
Ready p (starting c) = Unit {0}
Ready p (pushing c) = p.stop_ ≡ false → p.started ≡ true

-- What the pool owes to `join` and to its workers.
pub record Staffed (p : Pool) (working finished : ℕ) : Type 0 where
  pub settled : p.joined ≡ true → p.outstanding_work ≡ 0 → p.stop_ ≡ true
  pub some_thread : 0 < p.num_threads
  pub all_threads : p.started ≡ true → p.threads ≡ p.num_threads
  pub no_threads : p.started ≡ false → p.threads ≡ 0
  pub counted : working + finished ≡ p.threads
  pub ended : p.stop_ ≡ false → finished ≡ 0

-- What was pushed was resumed, then drained, or is in the queue, in that order.
pub record Ordered (s : System) : Type 0 where
  pub queue : List ℕ
  pub represents : Represents s.pool.queue queue
  pub order : s.resumed ++ s.abandoned ++ queue ≡ s.pushed
  pub drained : s.pool.stop_ ≡ false → s.abandoned ≡ []
  pub served : s.pool.stop_ ≡ false → s.pool.started ≡ false → queue ≡ []

pub record Inv (s : System) : Type 0 where
  pub staffed : Staffed s.pool s.working s.finished
  pub ready : All (Ready s.pool) s.postings
  pub ordered : Ordered s

pub Ready-grow :
    (p q : Pool)
    → (q.stop_ ≡ false → p.stop_ ≡ false)
    → (p.started ≡ true → q.started ≡ true)
    → (ps : List Posting) → All (Ready p) ps
    → All (Ready q) ps
Ready-grow p q f g [] a = tt
Ready-grow p q f g (starting c ∷ ps) (r, a) = (tt, Ready-grow p q f g ps a)
Ready-grow p q f g (pushing c ∷ ps) (r, a) = (λ h. g (r (f h)), Ready-grow p q f g ps a)

All-without :
    {A : Type 0} (P : A → Type 0) (xs ys : List A) (d : A)
    → All P (xs ++ d ∷ ys)
    → P d × All P (xs ++ ys)
All-without P [] ys d a = a
All-without P (x ∷ xs) ys d (p, a) = let (q, b) = All-without P xs ys d a in (q, (p, b))

pub Ordered-same :
    (s : System) (p : Pool) (ps : List Posting) (w f : ℕ)
    → p.queue ≡ s.pool.queue
    → (p.stop_ ≡ false → s.pool.stop_ ≡ false)
    → (p.started ≡ false → s.pool.started ≡ false)
    → Ordered s
    → Ordered (record s { pool = p; postings = ps; working = w; finished = f })
Ordered-same s p ps w f same g h v = record {
  queue = v.queue;
  represents = subst (λ q. Represents q v.queue) (sym same) v.represents;
  order = v.order;
  drained = λ e. v.drained (g e);
  served = λ e k. v.served (g e) (h k);
}

Ordered-push :
    (s : System) (c : ℕ) (ps : List Posting)
    → has c s.pushed ≡ false
    → (s.pool.stop_ ≡ false → s.pool.started ≡ true)
    → Ordered s
    → Ordered (push_posted s c ps)
unfolding push_posted push_back
Ordered-push s c ps new ready v =
    let fresh =
      has-append_right c (s.resumed ++ s.abandoned) v.queue
        (subst (λ l. has c l ≡ false) (sym v.order) new) in
    record {
      queue = v.queue ++ c ∷ [];
      represents = push-Represents s.pool.queue c v.queue fresh v.represents;
      order =
          sym (append_assoc (s.resumed ++ s.abandoned) v.queue (c ∷ []))
          ∙ ap (λ l. l ++ c ∷ []) v.order;
      drained = v.drained;
      served = λ e k. absurd (cc (ready e, k));
    }

abbrev started_now : Pool → Pool
started_now p = record p { threads = max p.threads p.num_threads; started = true }

-- `ensure_started` does nothing, or starts what threads are missing.
ensure_started-cases :
    (p : Pool)
    → (ensure_started p ≡ p)
      ⊎ ((p.started ≡ false) × (p.stop_ ≡ false) × (ensure_started p ≡ started_now p))
unfolding ensure_started
ensure_started-cases p = elim (Bool-cases (p.started || p.stop_)) [
  | inl idle ↦ inl (ap (λ b. if b then p else started_now p) idle)
  | inr first ↦ inr (
      (
        ground (arith, first),
        ground (arith, first),
        ap (λ b. if b then p else started_now p) first,
      ))
]

-- With `ensure_started` behind it, a push finds a pool that is started or was stopped.
ensure_started-Ready :
    (p : Pool) → (ensure_started p).stop_ ≡ false → (ensure_started p).started ≡ true
unfolding ensure_started
ensure_started-Ready p h = ground (arith, h)

Staffed-start :
    (p : Pool) (w f : ℕ)
    → Staffed p w f
    → Staffed (ensure_started p) (w + ((ensure_started p).threads - p.threads)) f
Staffed-start p w f v = elim (ensure_started-cases p) [
  | inl idle ↦
      subst (λ q. Staffed q (w + (q.threads - p.threads)) f) (sym idle)
        (subst (λ k. Staffed p k f) (omega arith) v)
  | inr (off, open_, first) ↦
      subst (λ q. Staffed q (w + (q.threads - p.threads)) f) (sym first)
        (record {
          settled = λ j z. absurd (cc (v.settled j z, open_));
          some_thread = v.some_thread;
          all_threads = λ _. omega (arith, v.no_threads off);
          no_threads = λ e. absurd cc;
          counted = omega (arith, v.counted, v.no_threads off);
          ended = λ _. v.ended open_;
        })
]

-- A pool that is stopped, or is joined without work, or is changed in its count only.
Staffed-count :
    (p : Pool) (w f n : ℕ) (stopped joined : Bool)
    → (p.stop_ ≡ true → stopped ≡ true)
    → (joined ≡ true → n ≡ 0 → stopped ≡ true)
    → Staffed p w f
    → Staffed (record p { outstanding_work = n; stop_ = stopped; joined = joined }) w f
Staffed-count p w f n stopped joined more settle v = record {
  settled = settle;
  some_thread = v.some_thread;
  all_threads = v.all_threads;
  no_threads = v.no_threads;
  counted = v.counted;
  ended = λ e.
      v.ended
        (elim (Bool-cases p.stop_) [ inl over ↦ absurd (cc (more over, e)) | inr open_ ↦ open_ ]);
}

-- What changes a pool without its queue and its threads.
pub Inv-pool :
    (s : System) (n : ℕ) (stopped joined : Bool)
    → (s.pool.stop_ ≡ true → stopped ≡ true)
    → (joined ≡ true → n ≡ 0 → stopped ≡ true)
    → Inv s
    → Inv (record s {
      pool = record s.pool { outstanding_work = n; stop_ = stopped; joined = joined };
    })
Inv-pool s n stopped joined more settle v =
    let p = record s.pool { outstanding_work = n; stop_ = stopped; joined = joined } in
    let back : stopped ≡ false → s.pool.stop_ ≡ false = λ e. elim (Bool-cases s.pool.stop_) [
      | inl over ↦ absurd (cc (more over, e))
      | inr open_ ↦ open_
    ] in
    record {
      staffed = Staffed-count s.pool s.working s.finished n stopped joined more settle v.staffed;
      ready = Ready-grow s.pool p back (λ e. e) s.postings v.ready;
      ordered = Ordered-same s p s.postings s.working s.finished refl back (λ e. e) v.ordered;
    }

Inv-pushed :
    (s : System) (c : ℕ) (ps : List Posting)
    → has c s.pushed ≡ false
    → (s.pool.stop_ ≡ false → s.pool.started ≡ true)
    → All (Ready s.pool) ps
    → Inv s
    → Inv (push_posted s c ps)
unfolding push_posted push_back
Inv-pushed s c ps new ready all v = record {
  staffed = record {
    settled = v.staffed.settled;
    some_thread = v.staffed.some_thread;
    all_threads = v.staffed.all_threads;
    no_threads = v.staffed.no_threads;
    counted = v.staffed.counted;
    ended = v.staffed.ended;
  };
  ready = Ready-grow s.pool (push_back s.pool c) (λ h. h) (λ h. h) ps all;
  ordered = Ordered-push s c ps new ready v.ordered;
}

pub Inv-post : (s : System) (c : ℕ) → has c s.pushed ≡ false → Inv s → Inv (post_unstarted s c)
unfolding post_unstarted push_posted
Inv-post s c new v =
    if-elim Inv s.pool.stop_ (push_posted s c s.postings)
      (record s { postings = starting c ∷ s.postings })
      (λ over. Inv-pushed s c s.postings new (λ h. absurd (cc (over, h))) v.ready v)
      (λ _. record {
        staffed = v.staffed;
        ready = (tt, v.ready);
        ordered =
            Ordered-same s s.pool (starting c ∷ s.postings) s.working s.finished refl (λ e. e)
              (λ e. e) v.ordered;
      })

pub Inv-push :
    (s : System) (xs ys : List Posting) (c : ℕ)
    → s.postings ≡ xs ++ pushing c ∷ ys
    → has c s.pushed ≡ false
    → Inv s
    → Inv (push_posted s c (xs ++ ys))
Inv-push s xs ys c e new v =
    let r = All-without (Ready s.pool) xs ys (pushing c) (subst (All (Ready s.pool)) e v.ready) in
    Inv-pushed s c (xs ++ ys) new r.0 r.1 v

pub Inv-start :
    (s : System) (xs ys : List Posting) (c : ℕ)
    → s.postings ≡ xs ++ starting c ∷ ys
    → Inv s
    → Inv (start_threads s c (xs ++ ys))
unfolding start_threads ensure_started
Inv-start s xs ys c e v =
    let p = ensure_started s.pool in
    let r = All-without (Ready s.pool) xs ys (starting c) (subst (All (Ready s.pool)) e v.ready) in
    let stays : p.stop_ ≡ false → s.pool.stop_ ≡ false = λ h. ground (arith, h) in
    let on : s.pool.started ≡ true → p.started ≡ true = λ h. ground (arith, h) in
    let off : p.started ≡ false → s.pool.started ≡ false = λ h. ground (arith, h) in
    let same : p.queue ≡ s.pool.queue = ground arith in
    record {
      staffed = Staffed-start s.pool s.working s.finished v.staffed;
      ready = (ensure_started-Ready s.pool, Ready-grow s.pool p stays on (xs ++ ys) r.1);
      ordered =
          Ordered-same s p (pushing c ∷ xs ++ ys) (s.working + (p.threads - s.pool.threads))
            s.finished same stays off v.ordered;
    }
