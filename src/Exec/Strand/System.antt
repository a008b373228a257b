-- ===== src/Exec/Strand/System.antt =====
-- The threads that use one strand, as a step relation. A driver is the one obligation that a locked
-- strand has outstanding: a caller that has to post the invoker, or the invoker coroutine itself.
use capy.Base.{ℕ, ◌≡◌, Bool, true, false, List, [], ◌∷◌, ◌++◌, map, if◌then◌else◌}
use capy.Exec.Strand.{
  Strand, create_implementation, enqueue, must_post, queued, abandoned, withdraw, alone, followed,
  taken, abandon_pending, dispatch_pending, destroy, try_unlock, set_dispatch_thread,
  clear_dispatch_thread, shutdown,
}

pub data Driver : Type 0 where
  -- `post_or_withdraw` before its first `post_invoker`, and before its second
  owing : ℕ → Driver
  again : Driver
  -- `make_invoker` at the top of its loop, and with the rest of a batch on a thread
  at_top : Driver
  running : ℕ → List ℕ → Driver

-- How a continuation leaves the queue.
pub data Fate : Type 0 where
  taken_to_run given_up handed_back : Fate

pub record System : Type 0 where
  pub strand : Strand
  pub drivers : List Driver
  -- threads between `try_unlock` and `clear_dispatch_thread`
  pub leaving : List ℕ
  -- all that entered the queue, all that left it, and all that was resumed from it
  pub accepted : List ℕ
  pub departed : List (ℕ × Fate)
  pub resumed : List ℕ
  -- whether the inner executor has destroyed an invoker that it had accepted
  pub dropped : Bool

abbrev pub with_fate : Fate → List ℕ → List (ℕ × Fate)
with_fate f = map λ c. (c, f)

-- `strand_service::post`, and `dispatch` on another thread, up to the call of `post_or_withdraw`.
unfoldable pub post : System → ℕ → System
post s c =
    let (impl, r) = enqueue s.strand c in
    let queue = record s { strand = impl; accepted = s.accepted ++ c ∷ [] } in
    elim r [
      | must_post ↦ record s {
        strand = impl;
        accepted = s.accepted ++ c ∷ [];
        drivers = owing c ∷ s.drivers;
      }
      | queued ↦ queue
      | abandoned ↦ s
    ]

-- `post_invoker` has posted.
unfoldable pub invoker_posted : System → List Driver → System
invoker_posted s others = record s { drivers = at_top ∷ others }

-- The first `post_invoker` has thrown: `c` is withdrawn and goes back to the caller.
unfoldable pub post_failed : System → ℕ → List Driver → System
post_failed s c others =
    let (impl, w) = withdraw s.strand in
    let back = s.departed ++ with_fate handed_back (c ∷ []) in
    elim w [
      | alone ↦ record s { strand = impl; drivers = others; departed = back }
      | followed ↦ record s { strand = impl; drivers = again ∷ others; departed = back }
      | taken ↦ record s { drivers = others }
    ]

-- The second `post_invoker` has thrown too.
unfoldable pub post_failed_again : System → List Driver → System
post_failed_again s others =
    let (impl, batch) = abandon_pending s.strand in
    record s { strand = impl; drivers = others; departed = s.departed ++ with_fate given_up batch }

-- One turn of the invoker's loop begins on thread `t`.
unfoldable pub invoker_runs : System → ℕ → List Driver → System
invoker_runs s t others =
    let (impl, batch) = dispatch_pending (set_dispatch_thread s.strand t) in
    record s {
      strand = impl;
      drivers = running t batch ∷ others;
      departed = s.departed ++ with_fate taken_to_run batch;
    }

-- `dispatch_batch` resumes the next continuation.
unfoldable pub resume_next : System → ℕ → ℕ → List ℕ → List Driver → System
resume_next s t c batch others = record s {
  drivers = running t batch ∷ others;
  resumed = s.resumed ++ c ∷ [];
}

-- The batch is done: the invoker ends, or takes another turn.
unfoldable pub batch_done : System → ℕ → List Driver → System
batch_done s t others =
    let (impl, unlocked) = try_unlock s.strand in
    if unlocked
    then record s { strand = impl; drivers = others; leaving = t ∷ s.leaving }
    else record s { strand = impl; drivers = at_top ∷ others }

unfoldable pub cleared : System → List ℕ → System
cleared s others = record s { strand = clear_dispatch_thread s.strand; leaving = others }

unfoldable pub shut_down : System → System
shut_down s =
    let (impl, doomed) = shutdown s.strand in
    record s { strand = impl; departed = s.departed ++ with_fate given_up doomed }

-- The inner executor abandons the invoker instead of running it.
unfoldable pub invoker_dropped : System → List Driver → System
invoker_dropped s others = record s { drivers = others; dropped = true }

-- The last handle of the strand is gone.
unfoldable pub destroyed : System → System
destroyed s =
    let (impl, batch) = destroy s.strand in
    record s { strand = impl; departed = s.departed ++ with_fate given_up batch }

-- Any thread may move next, and any call of the inner executor may throw.
pub data Step (s : System) : System → Type 0 where
  posts : (c : ℕ) → Step s (post s c)
  starts :
      (xs ys : List Driver) (c : ℕ)
      → s.drivers ≡ xs ++ owing c ∷ ys
      → Step s (invoker_posted s (xs ++ ys))
  starts_again :
      (xs ys : List Driver) → s.drivers ≡ xs ++ again ∷ ys → Step s (invoker_posted s (xs ++ ys))
  throws :
      (xs ys : List Driver) (c : ℕ)
      → s.drivers ≡ xs ++ owing c ∷ ys
      → Step s (post_failed s c (xs ++ ys))
  throws_again :
      (xs ys : List Driver) → s.drivers ≡ xs ++ again ∷ ys → Step s (post_failed_again s (xs ++ ys))
  runs :
      (xs ys : List Driver) (t : ℕ)
      → s.drivers ≡ xs ++ at_top ∷ ys
      → Step s (invoker_runs s t (xs ++ ys))
  resumes :
      (xs ys : List Driver) (t c : ℕ) (batch : List ℕ)
      → s.drivers ≡ xs ++ running t (c ∷ batch) ∷ ys
      → Step s (resume_next s t c batch (xs ++ ys))
  ends :
      (xs ys : List Driver) (t : ℕ)
      → s.drivers ≡ xs ++ running t [] ∷ ys
      → Step s (batch_done s t (xs ++ ys))
  clears : (xs ys : List ℕ) (t : ℕ) → s.leaving ≡ xs ++ t ∷ ys → Step s (cleared s (xs ++ ys))
  drops :
      (xs ys : List Driver) → s.drivers ≡ xs ++ at_top ∷ ys → Step s (invoker_dropped s (xs ++ ys))
  closes : Step s (shut_down s)

unfoldable pub start : System
unfolding create_implementation
start = record {
  strand = create_implementation false;
  drivers = [];
  leaving = [];
  accepted = [];
  departed = [];
  resumed = [];
  dropped = false;
}

pub data Reach : System → Type 0 where
  begin : Reach start
  then_ : {s t : System} → Reach s → Step s t → Reach t
