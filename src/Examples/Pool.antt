-- ===== src/Examples/Pool.antt =====
-- A pool of two threads with one continuation posted, and a queue of two.
use capy.Base.{refl, [], ◌∷◌}
use capy.Exec.Queue.{Queue, push, pop}
use capy.Exec.Queue.Refine.{Represents}
use capy.Exec.Pool.{create, push_back, ensure_started}
use capy.Exec.Pool.System.{
  System, start, post_unstarted, start_threads, push_posted, Reach, begin, then_, posts_unstarted,
  starts, pushes,
}
use capy.Exec.Pool.Invariant.{Staffed, Ordered}
use capy.Exec.Pool.Order.{Reach-Ordered, Reach-Staffed, Served, Reach-Served}

busy : System
unfolding start post_unstarted start_threads push_posted
busy = push_posted (start_threads (post_unstarted (start 4 2) 7) 7 []) 7 []

busy-Reach : Reach 4 2 busy
unfolding busy create
busy-Reach =
    then_ (then_ (then_ begin (posts_unstarted 7 refl)) (starts [] [] 7 refl))
      (pushes [] [] 7 refl refl)

Reach-Ordered_example : Ordered busy
Reach-Ordered_example = Reach-Ordered 4 2 busy busy-Reach

Reach-Staffed_example : Staffed busy.pool busy.working busy.finished
Reach-Staffed_example = Reach-Staffed 4 2 busy busy-Reach

Reach-Served_example : Served busy 7
unfolding busy create push_back push ensure_started pop
Reach-Served_example = Reach-Served 4 2 busy 7 busy-Reach refl refl

one : Queue
unfolding create push
one = push (create 1 1).queue 3

one-Represents : Represents one (3 ∷ [])
unfolding one create push
one-Represents = record { chain = (refl, refl); tail = refl; distinct = (refl, tt) }
