-- ===== src/Frames/Recycling/Caches.antt =====
-- What the pools hold, and how it changes with one bucket or one user.
use capy.Base.{
  ℕ, suc, ◌<◌, ◌≤◌, ◌≡◌, sym, ap, ◌∙◌, arith, Bool, true, false, not, ◌&&◌, ◌==◌, if-elim,
  Bool-cases, Option, none, inl, inr, ◌⊎◌, has, Distinct,
}
use capy.Frames.Recycling.{Bucket, Resource, set_bucket, bucket_capacity, num_classes}
use capy.Frames.Recycling.Buckets.{contents}
use capy.Frames.Recycling.Classes.{class_size}

abbrev pub In : ℕ → Bucket → Type 0
In q b = has q (contents b) ≡ true

-- The block is in no bucket.
abbrev pub Away : ℕ → Resource → Type 0
Away q r = (p i : ℕ) → has q (contents (r.bucket p i)) ≡ false

-- Whether a cleanup of the thread's pool is still to come.
abbrev pub caches : Resource → ℕ → Bool
caches r t = r.janitor t && not (r.pool_drained t)

-- `live q` is the number of bytes asked for by the user of the block `q`, `room q` the number it has.
-- A block stands once in one bucket at most, and has no user then; a bucket holds at most its
-- capacity, and blocks of its class's size only; only the six classes hold any, and no thread does
-- whose exit has run its cleanup or would run none; and an armed thread has a cleanup to come.
pub record Sound (r : Resource) (live : ℕ → Option ℕ) (room : ℕ → ℕ) : Type 0 where
  pub unique : (p i p' i' q : ℕ) → In q (r.bucket p i) → In q (r.bucket p' i') → (p ≡ p') × (i ≡ i')
  pub distinct : (p i : ℕ) → Distinct (contents (r.bucket p i))
  pub idle : (p i q : ℕ) → In q (r.bucket p i) → live q ≡ none
  pub sized : (p i q : ℕ) → In q (r.bucket p i) → room q ≡ class_size i
  pub bounded : (p i : ℕ) → (r.bucket p i).count ≤ bucket_capacity
  pub classes : (p i : ℕ) → num_classes ≤ i → (r.bucket p i).count ≡ 0
  pub gone : (t i : ℕ) → caches r t ≡ false → (r.bucket (suc t) i).count ≡ 0
  pub armed : (t : ℕ) → r.thread_armed t ≡ true → caches r t ≡ true

pub In-not_Away : (q : ℕ) (b : Bucket) → In q b → has q (contents b) ≡ false → ⊥
In-not_Away q b h k = cc (h, k)

-- A bucket that may stand at a pool and a class.
pub record Fit (r : Resource) (live : ℕ → Option ℕ) (room : ℕ → ℕ) (pool idx : ℕ) (b : Bucket)
    : Type 0 where
  pub alone : (p i q : ℕ) → In q b → In q (r.bucket p i) → (p ≡ pool) × (i ≡ idx)
  pub distinct : Distinct (contents b)
  pub idle : (q : ℕ) → In q b → live q ≡ none
  pub sized : (q : ℕ) → In q b → room q ≡ class_size idx
  pub bounded : b.count ≤ bucket_capacity
  pub reachable : (t : ℕ) → pool ≡ suc t → caches r t ≡ false → b.count ≡ 0

abbrev pub same : ℕ → ℕ → ℕ → ℕ → Bool
same p i pool idx = (p == pool) && (i == idx)

same_lem : (p i pool idx : ℕ) → same p i pool idx ≡ true → (p ≡ pool) × (i ≡ idx)
same_lem p i pool idx h = (ground (arith, h), ground (arith, h))

abbrev pub put : Resource → ℕ → ℕ → Bucket → Resource
put r pool idx b = record r { bucket = set_bucket r.bucket pool idx b }

put-In :
    (r : Resource) (pool idx p i q : ℕ) (b : Bucket)
    → In q ((put r pool idx b).bucket p i)
    → ((p ≡ pool) × (i ≡ idx) × In q b) ⊎ In q (r.bucket p i)
unfolding set_bucket
put-In r pool idx p i q b =
    if-elim (λ c. In q c → ((p ≡ pool) × (i ≡ idx) × In q b) ⊎ In q (r.bucket p i))
      (same p i pool idx) b (r.bucket p i)
      (λ e h. let (ep, ei) = same_lem p i pool idx e in inl (ep, ei, h)) (λ _ h. inr h)

-- A block that is in no bucket, old or new, is in none afterwards.
pub put-Away :
    (r : Resource) (pool idx q : ℕ) (b : Bucket)
    → has q (contents b) ≡ false
    → ((p i : ℕ) → In q (r.bucket p i) → (p ≡ pool) × (i ≡ idx))
    → Away q (put r pool idx b)
unfolding set_bucket
put-Away r pool idx q b out here p i =
    if-elim (λ c. has q (contents c) ≡ false) (same p i pool idx) b (r.bucket p i) (λ _. out)
      (λ e. elim (Bool-cases (has q (contents (r.bucket p i)))) [
        | inl h ↦ let (ep, ei) = here p i h in absurd (ground (arith, e, ep, ei))
        | inr h ↦ h
      ])

module _ {r : Resource} {live : ℕ → Option ℕ} {room : ℕ → ℕ} where
  -- A fitting bucket takes the place of another.
  pub put-Sound :
      (pool idx : ℕ) (b : Bucket)
      → Sound r live room
      → idx < num_classes
      → Fit r live room pool idx b
      → Sound (put r pool idx b) live room
  unfolding set_bucket
  put-Sound pool idx b v low fit = record {
    unique = λ p i p' i' q h h'. elim (put-In r pool idx p i q b h) [
      | inl (ep, ei, k) ↦ elim (put-In r pool idx p' i' q b h') [
        | inl (ep', ei', _) ↦ (ep ∙ sym ep', ei ∙ sym ei')
        | inr k' ↦ let (fp, fi) = fit.alone p' i' q k k' in (ep ∙ sym fp, ei ∙ sym fi)
      ]
      | inr k ↦ elim (put-In r pool idx p' i' q b h') [
        | inl (ep', ei', k') ↦ let (fp, fi) = fit.alone p i q k' k in (fp ∙ sym ep', fi ∙ sym ei')
        | inr k' ↦ v.unique p i p' i' q k k'
      ]
    ];
    distinct = λ p i.
        if-elim (λ c. Distinct (contents c)) (same p i pool idx) b (r.bucket p i)
          (λ _. fit.distinct) (λ _. v.distinct p i);
    idle = λ p i q h. elim (put-In r pool idx p i q b h) [
      | inl (_, _, k) ↦ fit.idle q k
      | inr k ↦ v.idle p i q k
    ];
    sized = λ p i q h. elim (put-In r pool idx p i q b h) [
      | inl (_, ei, k) ↦ fit.sized q k ∙ ap class_size (sym ei)
      | inr k ↦ v.sized p i q k
    ];
    bounded = λ p i.
        if-elim (λ c. c.count ≤ bucket_capacity) (same p i pool idx) b (r.bucket p i)
          (λ _. fit.bounded) (λ _. v.bounded p i);
    classes = λ p i high.
        if-elim (λ c. c.count ≡ 0) (same p i pool idx) b (r.bucket p i)
          (λ e. absurd (omega (arith, low, high, (same_lem p i pool idx e).1)))
          (λ _. v.classes p i high);
    gone = λ t i d.
        if-elim (λ c. c.count ≡ 0) (same (suc t) i pool idx) b (r.bucket (suc t) i)
          (λ e. fit.reachable t (sym (same_lem (suc t) i pool idx e).0) d) (λ _. v.gone t i d);
    armed = v.armed;
  }

  -- The part of a bucket that is left fits where the bucket was.
  pub part-Fit :
      (pool idx : ℕ) (b : Bucket)
      → Sound r live room
      → Distinct (contents b)
      → ((q : ℕ) → In q b → In q (r.bucket pool idx))
      → b.count ≤ (r.bucket pool idx).count
      → Fit r live room pool idx b
  part-Fit pool idx b v once sub few = record {
    alone = λ p i q h k. v.unique p i pool idx q k (sub q h);
    distinct = once;
    idle = λ q h. v.idle pool idx q (sub q h);
    sized = λ q h. v.sized pool idx q (sub q h);
    bounded = omega (arith, few, v.bounded pool idx);
    reachable = λ t e d.
        let none_left : (r.bucket pool idx).count ≡ 0 =
          ap (λ p. (r.bucket p idx).count) e ∙ v.gone t idx d in
        omega (arith, few, none_left);
  }

  -- The users and the sizes change, but not for a block in a bucket.
  pub users-Sound :
      (live' : ℕ → Option ℕ) (room' : ℕ → ℕ)
      → Sound r live room
      → ((p i q : ℕ) → In q (r.bucket p i) → (live' q ≡ live q) × (room' q ≡ room q))
      → Sound r live' room'
  users-Sound live' room' v keep = record {
    unique = v.unique;
    distinct = v.distinct;
    idle = λ p i q h. (keep p i q h).0 ∙ v.idle p i q h;
    sized = λ p i q h. (keep p i q h).1 ∙ v.sized p i q h;
    bounded = v.bounded;
    classes = v.classes;
    gone = v.gone;
    armed = v.armed;
  }
