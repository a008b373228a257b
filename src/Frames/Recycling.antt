-- ===== src/Frames/Recycling.antt =====
-- include/boost/capy/ex/recycling_memory_resource.hpp and src/ex/recycling_memory_resource.cpp. A
-- block is a number. Pool 0 is the global one, pool `suc t` that of thread `t`; a call of
-- `::operator new` is the block `p` that it returned, and a pool is used in one step, since the
-- global one has a mutex and the others one thread.
pub mod Classes
pub mod Buckets
pub mod Caches
pub mod Moves
pub mod Calls
pub mod System
pub mod Grants
pub mod Safety
use capy.Base.{
  ℕ, zero, suc, ◌+◌, ◌-◌, ◌*◌, ◌/◌, ◌%◌, Bool, true, false, ◌&&◌, Option, none, some, ltb, leb,
  ◌==◌, if◌then◌else◌, size_mod,
}

abbrev pub num_classes : ℕ
num_classes = 6

abbrev pub min_class_size : ℕ
min_class_size = 64

abbrev pub bucket_capacity : ℕ
bucket_capacity = 16

-- `std::bit_ceil`, for an argument of at most 2^63.
unfoldable pub ceil_from : ℕ → ℕ → ℕ → ℕ
ceil_from zero p n = p
ceil_from (suc fuel) p n = let rest = ceil_from fuel (p * 2) n in if leb n p then p else rest

unfoldable pub bit_ceil : ℕ → ℕ
bit_ceil n = ceil_from 64 1 n

-- `std::countr_zero`.
unfoldable pub zeros : ℕ → ℕ → ℕ
zeros zero n = 0
zeros (suc fuel) n = let rest = zeros fuel (n / 2) in if n % 2 == 0 then suc rest else 0

unfoldable pub countr_zero : ℕ → ℕ
countr_zero n = zeros 64 n

unfoldable pub round_up_pow2 : ℕ → ℕ
round_up_pow2 n = if leb n min_class_size then min_class_size else bit_ceil n

unfoldable pub get_class_index : ℕ → ℕ
get_class_index rounded =
    let idx = (countr_zero rounded + (size_mod - 6)) % size_mod in
    if ltb idx num_classes then idx else num_classes

pub record Bucket : Type 0 where
  pub count : ℕ
  pub ptrs : ℕ → ℕ

abbrev pub empty_bucket : Bucket
empty_bucket = record { count = 0; ptrs = λ _. 0 }

unfoldable pub pop : Bucket → Bucket × Option ℕ
pop b =
    if b.count == 0
    then (b, none)
    else (record b { count = b.count - 1 }, some (b.ptrs (b.count - 1)))

-- `pop(bucket&)`: the rest of the bucket moves into `into`.
unfoldable pub refill : Bucket → Bucket → Bucket × Bucket × Option ℕ
refill b into = if b.count == 0 then (b, into, none) else (
  record b { count = 0 },
  record { count = b.count - 1; ptrs = λ i. if ltb i b.count then b.ptrs i else into.ptrs i },
  some (b.ptrs (b.count - 1)),
)

unfoldable pub push : Bucket → ℕ → Bucket × Bool
push b p =
    if leb bucket_capacity b.count
    then (b, false)
    else (record { count = b.count + 1; ptrs = λ i. if i == b.count then p else b.ptrs i }, true)

-- The pools, and of each thread whether its pool was drained at its exit, whether it has the janitor
-- of `arm_thread_cleanup`, and the flag of `thread_armed`.
pub record Resource : Type 0 where
  pub bucket : ℕ → ℕ → Bucket
  pub pool_drained : ℕ → Bool
  pub janitor : ℕ → Bool
  pub thread_armed : ℕ → Bool

abbrev pub set_flag : (ℕ → Bool) → ℕ → Bool → ℕ → Bool
set_flag f t b u = if u == t then b else f u

unfoldable pub set_bucket : (ℕ → ℕ → Bucket) → ℕ → ℕ → Bucket → ℕ → ℕ → Bucket
set_bucket f pool idx b p i = if (p == pool) && (i == idx) then b else f p i

-- `arm_thread_cleanup`: whether the thread may cache blocks, in which case it has a janitor now.
unfoldable pub arm_thread_cleanup : Resource → ℕ → Resource × Bool
arm_thread_cleanup r t =
    if r.pool_drained t
    then (r, false)
    else (record r { janitor = set_flag r.janitor t true }, true)

-- A block from a bucket if there is one, else the one from `::operator new`.
abbrev pub or_new : Option ℕ → ℕ → ℕ
or_new none p = p
or_new (some q) p = q

-- `allocate_slow` by what `arm_thread_cleanup` answers.
unfoldable pub allocate_armed : ℕ → ℕ → ℕ → Resource × Bool → Resource × ℕ
unfolding refill pop set_bucket
allocate_armed t idx p (r, cache) =
    let (g, l, q) = refill (r.bucket 0 idx) (r.bucket (suc t) idx) in
    let (g', q') = pop (r.bucket 0 idx) in
    if cache
    then (record r { bucket = set_bucket (set_bucket r.bucket 0 idx g) (suc t) idx l }, or_new q p)
    else (record r { bucket = set_bucket r.bucket 0 idx g' }, or_new q' p)

unfoldable pub allocate_slow : Resource → ℕ → ℕ → ℕ → Resource × ℕ
unfolding allocate_armed arm_thread_cleanup
allocate_slow r t idx p = allocate_armed t idx p (arm_thread_cleanup r t)

-- The thread's own block if it has one.
unfoldable pub found_or_slow : Resource → ℕ → ℕ → ℕ → Bucket × Option ℕ → Resource × ℕ
unfolding set_bucket
found_or_slow r t idx p (l, some q) = (record r { bucket = set_bucket r.bucket (suc t) idx l }, q)
found_or_slow r t idx p (l, none) = allocate_slow r t idx p

-- `allocate_fast` for a request whose class is `idx`.
unfoldable pub allocate_class : Resource → ℕ → ℕ → ℕ → Resource × ℕ
unfolding found_or_slow pop
allocate_class r t idx p = found_or_slow r t idx p (pop (r.bucket (suc t) idx))

unfoldable pub allocate_fast : Resource → ℕ → ℕ → ℕ → Resource × ℕ
unfolding allocate_class
allocate_fast r t bytes p =
    let idx = get_class_index (round_up_pow2 bytes) in
    if leb num_classes idx then (r, p) else allocate_class r t idx p

-- What is not cached goes to `::operator delete`.
unfoldable pub deallocate_slow : Resource → ℕ → ℕ → Resource
unfolding push set_bucket
deallocate_slow r idx p =
    let (g, cached) = push (r.bucket 0 idx) p in
    if cached then record r { bucket = set_bucket r.bucket 0 idx g } else r

-- The end of `deallocate_fast` on an armed thread.
unfoldable pub cached_or_slow : Resource → ℕ → ℕ → ℕ → Resource
unfolding deallocate_slow push set_bucket
cached_or_slow r t idx p =
    let (l, cached) = push (r.bucket (suc t) idx) p in
    if cached
    then record r { bucket = set_bucket r.bucket (suc t) idx l }
    else deallocate_slow r idx p

-- On a thread that is not armed, by what `arm_thread_cleanup` answers.
unfoldable pub deallocate_unarmed : ℕ → ℕ → ℕ → Resource × Bool → Resource
unfolding cached_or_slow deallocate_slow
deallocate_unarmed t idx p (r, true) =
    cached_or_slow (record r { thread_armed = set_flag r.thread_armed t true }) t idx p
deallocate_unarmed t idx p (r, false) = deallocate_slow r idx p

unfoldable pub deallocate_class : Resource → ℕ → ℕ → ℕ → Resource
unfolding cached_or_slow deallocate_unarmed arm_thread_cleanup
deallocate_class r t idx p =
    if r.thread_armed t
    then cached_or_slow r t idx p
    else deallocate_unarmed t idx p (arm_thread_cleanup r t)

unfoldable pub deallocate_fast : Resource → ℕ → ℕ → ℕ → Resource
unfolding deallocate_class
deallocate_fast r t bytes p =
    let idx = get_class_index (round_up_pow2 bytes) in
    if leb num_classes idx then r else deallocate_class r t idx p

-- `~janitor` of thread `t`, which runs when the thread exits if it has one.
unfoldable pub drain : Resource → ℕ → Resource
drain r t = record r {
  bucket = λ p i. if p == suc t then record (r.bucket p i) { count = 0 } else r.bucket p i;
  pool_drained = set_flag r.pool_drained t true;
  thread_armed = set_flag r.thread_armed t false;
}
