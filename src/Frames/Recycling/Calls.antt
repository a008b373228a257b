-- ===== src/Frames/Recycling/Calls.antt =====
-- The branches of `allocate_fast` and `deallocate_fast`, by what the buckets hold.
use capy.Base.{
  ℕ, suc, ◌<◌, ◌≡◌, refl, sym, ap, subst, inl, inr, arith, Bool, true, false, ◌==◌, ◌&&◌, Option,
  if◌then◌else◌, Bool-cases, not, ap₂, ◌∙◌, ◌⊎◌, if-elim,
}
use capy.Frames.Recycling.{
  Bucket, Resource, pop, refill, push, set_bucket, set_flag, num_classes, arm_thread_cleanup,
  or_new, allocate_armed, cached_or_slow, deallocate_unarmed, allocate_slow, allocate_class,
  found_or_slow, deallocate_slow, deallocate_class,
}
use capy.Frames.Recycling.Buckets.{pop-cases, refill-cases, push-cases}
use capy.Frames.Recycling.Caches.{Sound, caches, put, put-Sound, put-Away, part-Fit}
use capy.Frames.Recycling.Moves.{Free, Kept, popped, pushed, refilled, still_there}

after_refill : Resource → ℕ → ℕ → ℕ → Bucket × Bucket × Option ℕ → Resource × ℕ
after_refill r t idx p (g, l, q) = (put (put r 0 idx g) (suc t) idx l, or_new q p)

after_pop : Resource → ℕ → ℕ → ℕ → Bucket × Option ℕ → Resource × ℕ
after_pop r pool idx p (g, q) = (put r pool idx g, or_new q p)

-- The thread has a janitor.
abbrev watched : Resource → ℕ → Resource
watched r t = record r { janitor = set_flag r.janitor t true }

arm_cases :
    (r : Resource) (t : ℕ)
    → ((r.pool_drained t ≡ true) × (arm_thread_cleanup r t ≡ (r, false)))
      ⊎ ((r.pool_drained t ≡ false) × (arm_thread_cleanup r t ≡ (watched r t, true)))
unfolding arm_thread_cleanup
arm_cases r t = elim (Bool-cases (r.pool_drained t)) [
  | inl e ↦ inl (e, rw e refl)
  | inr e ↦ inr (e, rw e refl)
]

pub and_false : (b : Bool) → (b && false) ≡ false
and_false true = refl
and_false false = refl

pub self_lem : (t : ℕ) → (t == t) ≡ true
self_lem t = ground arith

set_flag_le :
    (f : ℕ → Bool) (t u : ℕ) (b : Bool) → (set_flag f t true u && b) ≡ false → (f u && b) ≡ false
set_flag_le f t u b =
    elim (u == t) as (λ c. ((if c then true else f u) && b) ≡ false → (f u && b) ≡ false) [
      | true ↦ λ h. ap (λ x. f u && x) h ∙ and_false (f u)
      | false ↦ λ h. h
    ]

watched-caches : (r : Resource) (t : ℕ) → r.pool_drained t ≡ false → caches (watched r t) t ≡ true
watched-caches r t h = ap₂ (λ c d. (if c then true else r.janitor t) && not d) (self_lem t) h

watched-Sound :
    {r : Resource} {live : ℕ → Option ℕ} {room : ℕ → ℕ} (t : ℕ)
    → Sound r live room
    → Sound (watched r t) live room
watched-Sound {r} t v = record {
  unique = v.unique;
  distinct = v.distinct;
  idle = v.idle;
  sized = v.sized;
  bounded = v.bounded;
  classes = v.classes;
  gone = λ u i h. v.gone u i (set_flag_le r.janitor t u (not (r.pool_drained u)) h);
  armed = λ u h. elim (Bool-cases (caches (watched r t) u)) [
    | inl y ↦ y
    | inr n ↦ absurd (cc (v.armed u h, set_flag_le r.janitor t u (not (r.pool_drained u)) n))
  ];
}

watched-Free :
    {r : Resource} {live : ℕ → Option ℕ} {room : ℕ → ℕ} (t idx q : ℕ)
    → Free r live room idx q
    → Free (watched r t) live room idx q
watched-Free t idx q f = record { away = f.away; idle = f.idle; fits = f.fits }

module _ {r : Resource} {live : ℕ → Option ℕ} {room : ℕ → ℕ} where
  -- Nothing was found: the bucket is put back.
  put_back :
      (pool idx p i : ℕ)
      → Sound r live room
      → idx < num_classes
      → Free r live room i p
      → Kept live room i (put r pool idx (r.bucket pool idx), p)
  put_back pool idx p i v low f = (
    put-Sound pool idx (r.bucket pool idx) v low
        (part-Fit pool idx (r.bucket pool idx) v (v.distinct pool idx) (λ _ h. h) (omega arith)),
    record {
      away =
          put-Away r pool idx p (r.bucket pool idx) (f.away pool idx)
            (λ q j h. absurd (cc (h, f.away q j)));
      idle = f.idle;
      fits = f.fits;
    },
  )

pop-Kept :
    (r : Resource) (live : ℕ → Option ℕ) (room : ℕ → ℕ) (pool idx p : ℕ)
    → Sound r live room
    → idx < num_classes
    → Free r live room idx p
    → Kept live room idx (after_pop r pool idx p (pop (r.bucket pool idx)))
unfolding after_pop
pop-Kept r live room pool idx p v low f = elim (pop-cases (r.bucket pool idx)) [
  | inl (e, _) ↦
      subst (λ x. Kept live room idx (after_pop r pool idx p x)) (sym e)
        (put_back pool idx p idx v low f)
  | inr (q, e, found) ↦
      subst (λ x. Kept live room idx (after_pop r pool idx p x)) (sym e)
        (popped pool idx q _ v low found)
]

suc_not_zero : (t i : ℕ) → (suc t == 0) && (i == i) ≡ false
suc_not_zero t i = ground arith

other_pool :
    (r : Resource) (t idx : ℕ) (b : Bucket)
    → (put r 0 idx b).bucket (suc t) idx ≡ r.bucket (suc t) idx
unfolding set_bucket
other_pool r t idx b = ap (λ c. if c then b else r.bucket (suc t) idx) (suc_not_zero t idx)

refill-Kept :
    (r : Resource) (live : ℕ → Option ℕ) (room : ℕ → ℕ) (t idx p : ℕ)
    → Sound r live room
    → idx < num_classes
    → caches r t ≡ true
    → Free r live room idx p
    → Kept live room idx (after_refill r t idx p (refill (r.bucket 0 idx) (r.bucket (suc t) idx)))
unfolding after_refill
refill-Kept r live room t idx p v low there f =
    elim (refill-cases (r.bucket 0 idx) (r.bucket (suc t) idx)) [
      | inl (e, _) ↦
          let (v', f') = put_back 0 idx p idx v low f in
          let again = put_back (suc t) idx p idx v' low f' in
          let own : (put r 0 idx (r.bucket 0 idx)).bucket (suc t) idx ≡ r.bucket (suc t) idx =
            other_pool r t idx (r.bucket 0 idx) in
          subst (λ x. Kept live room idx (after_refill r t idx p x)) (sym e)
            (subst (λ b. Kept live room idx (put (put r 0 idx (r.bucket 0 idx)) (suc t) idx b, p))
              own again)
      | inr (q, e, found) ↦
          subst (λ x. Kept live room idx (after_refill r t idx p x)) (sym e)
            (refilled t idx q v low there found)
    ]

allocate_slow-Kept :
    (r : Resource) (live : ℕ → Option ℕ) (room : ℕ → ℕ) (t idx p : ℕ)
    → Sound r live room
    → idx < num_classes
    → Free r live room idx p
    → Kept live room idx (allocate_slow r t idx p)
unfolding allocate_slow allocate_armed after_refill after_pop
allocate_slow-Kept r live room t idx p v low f = elim (arm_cases r t) [
  | inl (gone, e) ↦
      subst (λ x. Kept live room idx (allocate_armed t idx p x)) (sym e)
        (pop-Kept r live room 0 idx p v low f)
  | inr (there, e) ↦
      subst (λ x. Kept live room idx (allocate_armed t idx p x)) (sym e)
        (refill-Kept (watched r t) live room t idx p (watched-Sound t v) low
          (watched-caches r t there) (watched-Free t idx p f))
]

class_found :
    (r : Resource) (t idx p : ℕ) (o : Bucket × Option ℕ)
    → pop (r.bucket (suc t) idx) ≡ o
    → allocate_class r t idx p ≡ found_or_slow r t idx p o
unfolding allocate_class
class_found r t idx p o e = ap (found_or_slow r t idx p) e

pub allocate_class-Kept :
    (r : Resource) (live : ℕ → Option ℕ) (room : ℕ → ℕ) (t idx p : ℕ)
    → Sound r live room
    → idx < num_classes
    → Free r live room idx p
    → Kept live room idx (allocate_class r t idx p)
unfolding found_or_slow
allocate_class-Kept r live room t idx p v low f = elim (pop-cases (r.bucket (suc t) idx)) [
  | inl (e, _) ↦
      subst (Kept live room idx) (sym (class_found r t idx p _ e))
        (allocate_slow-Kept r live room t idx p v low f)
  | inr (q, e, found) ↦
      subst (Kept live room idx) (sym (class_found r t idx p _ e))
        (popped (suc t) idx q _ v low found)
]

after_push : Resource → ℕ → ℕ → Resource → Bucket × Bool → Resource
after_push r pool idx other (b, cached) = if cached then put r pool idx b else other

push-Sound :
    (r : Resource) (live : ℕ → Option ℕ) (room : ℕ → ℕ) (pool idx p : ℕ) (other : Resource)
    → Sound r live room
    → idx < num_classes
    → Free r live room idx p
    → ((t : ℕ) → pool ≡ suc t → caches r t ≡ false → ⊥)
    → Sound other live room
    → Sound (after_push r pool idx other (push (r.bucket pool idx) p)) live room
unfolding after_push
push-Sound r live room pool idx p other v low f open_ w = elim (push-cases (r.bucket pool idx) p) [
  | inl e ↦ subst (λ x. Sound (after_push r pool idx other x) live room) (sym e) w
  | inr (e, done) ↦
      subst (λ x. Sound (after_push r pool idx other x) live room) (sym e)
        (pushed pool idx p _ v low f (λ t eq d. absurd (open_ t eq d)) done)
]

deallocate_slow-Sound :
    (r : Resource) (live : ℕ → Option ℕ) (room : ℕ → ℕ) (idx p : ℕ)
    → Sound r live room
    → idx < num_classes
    → Free r live room idx p
    → Sound (deallocate_slow r idx p) live room
unfolding deallocate_slow after_push
deallocate_slow-Sound r live room idx p v low f =
    push-Sound r live room 0 idx p r v low f (λ t e _. absurd (omega (arith, e))) v

cached_or_slow-Sound :
    (r : Resource) (live : ℕ → Option ℕ) (room : ℕ → ℕ) (t idx p : ℕ)
    → Sound r live room
    → idx < num_classes
    → caches r t ≡ true
    → Free r live room idx p
    → Sound (cached_or_slow r t idx p) live room
unfolding cached_or_slow after_push
cached_or_slow-Sound r live room t idx p v low here f =
    push-Sound r live room (suc t) idx p (deallocate_slow r idx p) v low f
      (λ u e d. still_there t u r e here d) (deallocate_slow-Sound r live room idx p v low f)

-- The thread is armed as it has a cleanup to come.
armed-Sound :
    {r : Resource} {live : ℕ → Option ℕ} {room : ℕ → ℕ} (t : ℕ)
    → caches r t ≡ true
    → Sound r live room
    → Sound (record r { thread_armed = set_flag r.thread_armed t true }) live room
armed-Sound {r} t here v = record {
  unique = v.unique;
  distinct = v.distinct;
  idle = v.idle;
  sized = v.sized;
  bounded = v.bounded;
  classes = v.classes;
  gone = v.gone;
  armed = λ u h. elim (Bool-cases (u == t)) [
    | inl y ↦ let eq : u ≡ t = ground (arith, y) in ap (caches r) eq ∙ here
    | inr n ↦ v.armed u (sym (ap (λ c. if c then true else r.thread_armed u) n) ∙ h)
  ];
}

deallocate_unarmed-Sound :
    (r : Resource) (live : ℕ → Option ℕ) (room : ℕ → ℕ) (t idx p : ℕ)
    → Sound r live room
    → idx < num_classes
    → Free r live room idx p
    → Sound (deallocate_unarmed t idx p (arm_thread_cleanup r t)) live room
unfolding deallocate_unarmed
deallocate_unarmed-Sound r live room t idx p v low f = elim (arm_cases r t) [
  | inl (gone, e) ↦
      subst (λ x. Sound (deallocate_unarmed t idx p x) live room) (sym e)
        (deallocate_slow-Sound r live room idx p v low f)
  | inr (there, e) ↦
      let here = watched-caches r t there in
      subst (λ x. Sound (deallocate_unarmed t idx p x) live room) (sym e)
        (cached_or_slow-Sound _ live room t idx p (armed-Sound t here (watched-Sound t v)) low here
          record { away = f.away; idle = f.idle; fits = f.fits })
]

pub deallocate_class-Sound :
    (r : Resource) (live : ℕ → Option ℕ) (room : ℕ → ℕ) (t idx p : ℕ)
    → Sound r live room
    → idx < num_classes
    → Free r live room idx p
    → Sound (deallocate_class r t idx p) live room
unfolding deallocate_class
deallocate_class-Sound r live room t idx p v low f =
    if-elim (λ (x : Resource). Sound x live room) (r.thread_armed t) (cached_or_slow r t idx p) _
      (λ on. cached_or_slow-Sound r live room t idx p v low (v.armed t on) f)
      (λ _. deallocate_unarmed-Sound r live room t idx p v low f)
