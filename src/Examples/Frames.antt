-- ===== src/Examples/Frames.antt =====
-- A frame of 100 bytes is freed, and its block is used again.
use capy.Base.{
  ◌≡◌, ◌<◌, ◌≤◌, ◌⊎◌, ◌&&◌, ◌==◌, refl, none, arith, if-elim, if◌then◌else◌, [], ◌∷◌, false, has,
}
use capy.Frames.Recycling.{
  empty_bucket, set_bucket, deallocate_fast, deallocate_class, allocate_fast, allocate_class,
  found_or_slow, allocate_slow, allocate_armed, arm_thread_cleanup, cached_or_slow,
  deallocate_unarmed, refill, pop, push, get_class_index, round_up_pow2, bit_ceil, ceil_from,
  countr_zero, zeros,
}
use capy.Frames.Recycling.Buckets.{contents}
use capy.Frames.Recycling.Classes.{class_of, FitsClass, class_index_lem}
use capy.Frames.Recycling.Caches.{Away}
use capy.Frames.Recycling.System.{
  System, start, allocate, deallocate, exit, Reach, begin, then_, allocates, deallocates, exits,
}
use capy.Frames.Recycling.Grants.{Safe}
use capy.Frames.Recycling.Safety.{Reach-Safe, Granted, allocate-Granted}

class_index_lem_example : ((2048 < 100) × (class_of 100 ≡ 6)) ⊎ ((100 ≤ 2048) × FitsClass 100)
class_index_lem_example = class_index_lem 100 (omega arith)

abbrev in_use : System
in_use = (allocate start 0 100 1).0

in_use-Reach : Reach in_use
unfolding start
in_use-Reach = then_ begin (allocates 0 100 1 (omega arith) (λ p i. refl) refl)

abbrev freed : System
freed = deallocate in_use 0 100 1

freed-Reach : Reach freed
unfolding start allocate allocate_fast allocate_class found_or_slow allocate_slow allocate_armed
    arm_thread_cleanup refill pop get_class_index round_up_pow2 bit_ceil ceil_from countr_zero zeros
    set_bucket
freed-Reach = then_ in_use-Reach (deallocates 0 100 1 refl)

-- The thread exits.
abbrev left : System
left = exit freed 0

left-Reach : Reach left
unfolding start deallocate deallocate_fast deallocate_class cached_or_slow deallocate_unarmed push
    allocate allocate_fast allocate_class found_or_slow allocate_slow allocate_armed
    arm_thread_cleanup refill pop get_class_index round_up_pow2 bit_ceil ceil_from countr_zero zeros
    set_bucket
left-Reach = then_ freed-Reach (exits 0 refl)

Reach-Safe_example : Safe left
Reach-Safe_example = Reach-Safe left-Reach

-- Thread 0 has the block in its bucket of class 1 now.
cached : contents (freed.resource.bucket 1 1) ≡ 1 ∷ []
unfolding start deallocate deallocate_fast deallocate_class cached_or_slow deallocate_unarmed push
    allocate allocate_fast allocate_class found_or_slow allocate_slow allocate_armed
    arm_thread_cleanup refill pop get_class_index round_up_pow2 bit_ceil ceil_from countr_zero zeros
    set_bucket
cached = refl

used_again : (allocate freed 0 120 2).1 ≡ 1
unfolding start deallocate deallocate_fast deallocate_class cached_or_slow deallocate_unarmed push
    allocate allocate_fast allocate_class found_or_slow allocate_slow allocate_armed
    arm_thread_cleanup refill pop get_class_index round_up_pow2 bit_ceil ceil_from countr_zero zeros
    set_bucket
used_again = refl

two-Away : Away 2 in_use.resource
unfolding start allocate allocate_fast allocate_class found_or_slow allocate_slow allocate_armed
    arm_thread_cleanup refill pop get_class_index round_up_pow2 bit_ceil ceil_from countr_zero zeros
    set_bucket
two-Away p i =
    if-elim (λ b. has 2 (contents b) ≡ false) ((p == 1) && (i == 1)) empty_bucket
      (if (p == 0) && (i == 1) then empty_bucket else empty_bucket) (λ _. refl)
      (λ _.
        if-elim (λ b. has 2 (contents b) ≡ false) ((p == 0) && (i == 1)) empty_bucket empty_bucket
          (λ _. refl) (λ _. refl))

two_idle : in_use.live 2 ≡ none
unfolding start allocate allocate_fast allocate_class found_or_slow allocate_slow allocate_armed
    arm_thread_cleanup refill pop get_class_index round_up_pow2 bit_ceil ceil_from countr_zero zeros
    set_bucket
two_idle = refl

allocate-Granted_example :
    Granted in_use 3000 (allocate in_use 1 3000 2).0 (allocate in_use 1 3000 2).1
allocate-Granted_example = allocate-Granted 1 3000 2 in_use-Reach (omega arith) two-Away two_idle
