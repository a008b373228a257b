-- ===== src/Exec/Pool.antt =====
-- src/ex/thread_pool.cpp. A continuation is a number; `threads` counts the threads that were
-- started. Each function is a section under the mutex, or a call made of such sections. Waiting on
-- a condition variable re-tests its predicate, so the notifications have no effect on the state.
pub mod System
pub mod Invariant
pub mod Turns
pub mod Order
use capy.Base.{
  ℕ, ◌+◌, ◌-◌, ◌%◌, max, Bool, true, false, not, ◌&&◌, ◌||◌, Option, none, some, ltb, ◌==◌,
  if◌then◌else◌, size_mod,
}
use capy.Exec.Queue.{Queue, push, pop, empty}

pub record Pool : Type 0 where
  pub queue : Queue
  pub num_threads : ℕ
  pub threads : ℕ
  pub outstanding_work : ℕ
  pub stop_ : Bool
  pub joined : Bool
  pub started : Bool

-- `impl(num_threads, prefix)` on a machine that reports `concurrency` hardware threads. The
-- names of threads are left out.
unfoldable pub create : ℕ → ℕ → Pool
create concurrency n = record {
  queue = record { head_ = none; tail_ = none; reserved = λ _. none };
  num_threads = if n == 0 then max concurrency 1 else n;
  threads = 0;
  outstanding_work = 0;
  stop_ = false;
  joined = false;
  started = false;
}

unfoldable pub push_back : Pool → ℕ → Pool
push_back p c = record p { queue = push p.queue c }

unfoldable pub ensure_started : Pool → Pool
ensure_started p =
    if p.started || p.stop_
    then p
    else record p { threads = max p.threads p.num_threads; started = true }

-- `post`, when no other thread comes between its sections.
unfoldable pub post : Pool → ℕ → Pool
unfolding push_back ensure_started
post p c =
    if p.started
    then push_back p c
    else if p.stop_
    then push_back p c
    else push_back (ensure_started p) c

unfoldable pub on_work_started : Pool → Pool
on_work_started p = record p { outstanding_work = (p.outstanding_work + 1) % size_mod }

-- The compare-exchange of `on_work_finished`, for a count above one.
unfoldable pub release_fast : Pool → Pool
release_fast p = record p { outstanding_work = p.outstanding_work - 1 }

-- The rest of `on_work_finished`. What other threads do to the count between its two accesses has
-- the effect that it would have before them.
unfoldable pub release_last : Pool → Pool
release_last p =
    let n = (p.outstanding_work + (size_mod - 1)) % size_mod in
    record p { outstanding_work = n; stop_ = p.stop_ || ((n == 0) && p.joined) }

unfoldable pub on_work_finished : Pool → Pool
unfolding release_fast release_last
on_work_finished p = if ltb 1 p.outstanding_work then release_fast p else release_last p

-- `join` up to its wait; the threads are joined once `stop_` is set.
unfoldable pub join_begin : Pool → Pool
join_begin p =
    if p.joined then p else record p { joined = true; stop_ = p.stop_ || (p.outstanding_work == 0) }

unfoldable pub stop : Pool → Pool
stop p = record p { stop_ = true }

-- A worker with the lock: it waits, ends, or takes a continuation to resume.
pub data Turn : Type 0 where
  waits ends : Turn
  resumes : ℕ → Turn

unfoldable pub take_next : Pool → Queue × Option ℕ → Pool × Turn
take_next p (q, none) = (p, waits)
take_next p (q, some c) = (record p { queue = q }, resumes c)

unfoldable pub worker_turn : Pool → Pool × Turn
unfolding take_next
worker_turn p = if p.stop_ then (p, ends) else take_next p (pop p.queue)

-- One turn of `drain_abandoned`; the result is what it took, to be abandoned
-- if it holds a coroutine.
unfoldable pub drain_next : Pool → Pool × Option ℕ
drain_next p = let (q, c) = pop p.queue in (record p { queue = q }, c)
