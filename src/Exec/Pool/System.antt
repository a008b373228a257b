-- ===== src/Exec/Pool/System.antt =====
-- The threads that use one pool, as a step relation over the sections of its functions.
use capy.Base.{
  ℕ, ◌+◌, ◌-◌, ◌<◌, ◌≡◌, true, false, List, [], ◌∷◌, ◌++◌, Option, none, some, has, size_mod,
  if◌then◌else◌,
}
use capy.Exec.Pool.{
  Pool, create, push_back, ensure_started, on_work_started, release_fast, release_last, join_begin,
  stop, Turn, waits, ends, resumes, worker_turn, drain_next,
}

-- Where a call of `post` is: `started_` was seen unset and nobody had stopped the pool, or what is
-- left is the push.
pub data Posting : Type 0 where
  starting : ℕ → Posting
  pushing : ℕ → Posting

pub record System : Type 0 where
  pub pool : Pool
  pub postings : List Posting
  -- workers that are in their loop, and those that have left it
  pub working : ℕ
  pub finished : ℕ
  -- what was pushed, what workers took to resume, and what was drained, in order
  pub pushed : List ℕ
  pub resumed : List ℕ
  pub abandoned : List ℕ

unfoldable pub begin_push : System → ℕ → List Posting → System
begin_push s c others = record s { postings = pushing c ∷ others }

-- The first section of `post`, which may see a pool that was started since.
unfoldable pub post_unstarted : System → ℕ → System
unfolding push_back
post_unstarted s c =
    if s.pool.stop_
    then record s { pool = push_back s.pool c; pushed = s.pushed ++ c ∷ [] }
    else record s { postings = starting c ∷ s.postings }

unfoldable pub start_threads : System → ℕ → List Posting → System
unfolding ensure_started
start_threads s c others =
    let p = ensure_started s.pool in
    record s {
      pool = p;
      postings = pushing c ∷ others;
      working = s.working + (p.threads - s.pool.threads);
    }

unfoldable pub push_posted : System → ℕ → List Posting → System
unfolding push_back
push_posted s c others = record s {
  pool = push_back s.pool c;
  postings = others;
  pushed = s.pushed ++ c ∷ [];
}

-- A turn of one of `w + 1` workers, from what it found.
unfoldable pub work_done : System → ℕ → Pool × Turn → System
work_done s w (p, waits) = s
work_done s w (p, ends) = record s { working = w; finished = s.finished + 1 }
work_done s w (p, resumes c) = record s { pool = p; resumed = s.resumed ++ c ∷ [] }

unfoldable pub work : System → ℕ → System
unfolding worker_turn work_done
work s w = work_done s w (worker_turn s.pool)

unfoldable pub drain_done : System → Pool × Option ℕ → System
drain_done s (p, none) = s
drain_done s (p, some c) = record s { pool = p; abandoned = s.abandoned ++ c ∷ [] }

unfoldable pub drain : System → System
unfolding drain_next drain_done
drain s = drain_done s (drain_next s.pool)

-- A continuation is named anew for each time that it is posted.
pub data Step (s : System) : System → Type 0 where
  posts_started : (c : ℕ) → s.pool.started ≡ true → Step s (begin_push s c s.postings)
  posts_unstarted : (c : ℕ) → has c s.pushed ≡ false → Step s (post_unstarted s c)
  starts :
      (xs ys : List Posting) (c : ℕ)
      → s.postings ≡ xs ++ starting c ∷ ys
      → Step s (start_threads s c (xs ++ ys))
  pushes :
      (xs ys : List Posting) (c : ℕ)
      → s.postings ≡ xs ++ pushing c ∷ ys
      → has c s.pushed ≡ false
      → Step s (push_posted s c (xs ++ ys))
  work_started :
      s.pool.outstanding_work + 1 < size_mod → Step s (record s { pool = on_work_started s.pool })
  work_released : 1 < s.pool.outstanding_work → Step s (record s { pool = release_fast s.pool })
  work_finished : Step s (record s { pool = release_last s.pool })
  joins : Step s (record s { pool = join_begin s.pool })
  stops : Step s (record s { pool = stop s.pool })
  works : (w : ℕ) → s.working ≡ w + 1 → Step s (work s w)
  -- the destructor, behind `stop` and the joined threads
  drains : s.pool.stop_ ≡ true → s.working ≡ 0 → Step s (drain s)

unfoldable pub start : ℕ → ℕ → System
unfolding create
start concurrency n = record {
  pool = create concurrency n;
  postings = [];
  working = 0;
  finished = 0;
  pushed = [];
  resumed = [];
  abandoned = [];
}

pub data Reach (concurrency n : ℕ) : System → Type 0 where
  begin : Reach concurrency n (start concurrency n)
  then_ : {s t : System} → Reach concurrency n s → Step s t → Reach concurrency n t
