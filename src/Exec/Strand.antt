-- ===== src/Exec/Strand.antt =====
-- src/ex/detail/strand_impl.hpp and strand_service.cpp: one strand. A continuation is a number, a
-- thread is a number; the queue is the list of what is pending, first come first. Each function is
-- one section under the strand's mutex.
pub mod System
pub mod Invariant
pub mod Order
use capy.Base.{ℕ, Bool, true, false, List, [], ◌∷◌, ◌++◌, Option, none, some, ◌==◌, if◌then◌else◌}

-- `strand_impl`. `service` says whether `service_` is not null.
pub record Strand : Type 0 where
  pub pending : List ℕ
  pub locked : Bool
  pub dispatch_thread : Option ℕ
  pub service : Bool

-- `create_implementation`: a strand of a live service, and one born closed.
unfoldable pub create_implementation : Bool → Strand
create_implementation shutdown =
    if shutdown
    then record { pending = []; locked = true; dispatch_thread = none; service = false }
    else record { pending = []; locked = false; dispatch_thread = none; service = true }

-- What the caller of `enqueue` has to do, and what has become of the continuation.
pub data Enqueued : Type 0 where
  must_post queued abandoned : Enqueued

unfoldable pub enqueue : Strand → ℕ → Strand × Enqueued
enqueue impl c =
    let pushed = impl.pending ++ c ∷ [] in
    if impl.service
    then if impl.locked
      then (record impl { pending = pushed }, queued)
      else (record impl { pending = pushed; locked = true }, must_post)
    else (impl, abandoned)

pub data Withdrawal : Type 0 where
  alone followed taken : Withdrawal

-- `pop_front()`.
abbrev pub tail : List ℕ → List ℕ
tail [] = []
tail (c ∷ cs) = cs

abbrev pub is_empty : List ℕ → Bool
is_empty [] = true
is_empty (c ∷ cs) = false

-- `front()`.
abbrev pub front : List ℕ → Option ℕ
front [] = none
front (c ∷ cs) = some c

unfoldable pub withdraw : Strand → Strand × Withdrawal
withdraw impl =
    let rest = tail impl.pending in
    if impl.service
    then if is_empty rest
      then (record impl { pending = rest; locked = false }, alone)
      else (record impl { pending = rest }, followed)
    else (impl, taken)

-- The batch that is to be abandoned.
unfoldable pub abandon_pending : Strand → Strand × List ℕ
abandon_pending impl =
    if impl.service
    then (record impl { pending = []; locked = false }, impl.pending)
    else (impl, [])

-- The batch that is to be resumed.
unfoldable pub dispatch_pending : Strand → Strand × List ℕ
dispatch_pending impl = (record impl { pending = [] }, impl.pending)

unfoldable pub try_unlock : Strand → Strand × Bool
try_unlock impl =
    if is_empty impl.pending then (record impl { locked = false }, true) else (impl, false)

unfoldable pub set_dispatch_thread : Strand → ℕ → Strand
set_dispatch_thread impl t = record impl { dispatch_thread = some t }

unfoldable pub clear_dispatch_thread : Strand → Strand
clear_dispatch_thread impl = record impl { dispatch_thread = none }

-- What `shutdown()` does to each strand; the batch is to be abandoned.
unfoldable pub shutdown : Strand → Strand × List ℕ
shutdown impl = (record impl { pending = []; locked = true; service = false }, impl.pending)

-- `~strand_impl()`; the batch is to be abandoned.
unfoldable pub destroy : Strand → Strand × List ℕ
destroy impl = (record impl { pending = [] }, impl.pending)

unfoldable pub running_in_this_thread : Strand → ℕ → Bool
running_in_this_thread impl t = elim impl.dispatch_thread [ none ↦ false | some u ↦ u == t ]
