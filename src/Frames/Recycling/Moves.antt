-- ===== src/Frames/Recycling/Moves.antt =====
-- A block that leaves a bucket or enters one.
use capy.Base.{
  ℕ, suc, ◌<◌, ◌≡◌, refl, sym, ap, subst, ◌∙◌, ◌⊎◌, inl, inr, arith, true, false, ◌||◌, ◌==◌,
  Bool-cases, Option, none, some, List, ◌∷◌, has, Distinct,
}
use capy.Frames.Recycling.{Bucket, Resource, num_classes}
use capy.Frames.Recycling.Buckets.{contents, Popped, Pushed, taken}
use capy.Frames.Recycling.Classes.{class_size}
use capy.Frames.Recycling.Caches.{In, Away, caches, Sound, put, put-Sound, put-Away, part-Fit}

has_tail : (q p : ℕ) (xs ys : List ℕ) → xs ≡ p ∷ ys → has q ys ≡ true → has q xs ≡ true
has_tail q p xs ys e h = rw e (ground (arith, h))

has_head : (p : ℕ) (xs ys : List ℕ) → xs ≡ p ∷ ys → has p xs ≡ true
has_head p xs ys e = rw e (ground arith)

tail-Distinct :
    (p : ℕ) (xs ys : List ℕ) → xs ≡ p ∷ ys → Distinct xs → (has p ys ≡ false) × Distinct ys
tail-Distinct p xs ys e d = subst Distinct e d

-- A user may have the block `q` for a request of class `idx`.
pub record Free (r : Resource) (live : ℕ → Option ℕ) (room : ℕ → ℕ) (idx q : ℕ) : Type 0 where
  pub away : Away q r
  pub idle : live q ≡ none
  pub fits : room q ≡ class_size idx

abbrev pub Kept : (ℕ → Option ℕ) → (ℕ → ℕ) → ℕ → Resource × ℕ → Type 0
Kept live room idx (r, q) = Sound r live room × Free r live room idx q

pushed_cases :
    (q p : ℕ) (xs ys : List ℕ) → xs ≡ p ∷ ys → has q xs ≡ true → (q ≡ p) ⊎ (has q ys ≡ true)
pushed_cases q p xs ys e h =
    let k : (q == p) || has q ys ≡ true = ap (has q) (sym e) ∙ h in
    elim (Bool-cases (q == p)) [
      | inl eq ↦ inl (ground (arith, eq))
      | inr ne ↦ inr (ground (arith, ne, k))
    ]

In-Away : (r : Resource) (q x p i : ℕ) → q ≡ x → In q (r.bucket p i) → Away x r → ⊥
In-Away r q x p i e k away = cc (ap (λ y. has y (contents (r.bucket p i))) e, k, away p i)

pub still_there :
    (t u : ℕ) (r : Resource) → suc t ≡ suc u → caches r t ≡ true → caches r u ≡ false → ⊥
still_there t u r e h k = let eq : t ≡ u = omega (arith, e) in cc (ap (caches r) eq, h, k)

abbrev pub no_blocks : Bucket → Bucket
no_blocks b = record b { count = 0 }

-- The global pool has nothing left of class `idx`.
abbrev pub emptied : Resource → ℕ → Resource
emptied r idx = put r 0 idx (no_blocks (r.bucket 0 idx))

emptied-Away :
    {r : Resource} {live : ℕ → Option ℕ} {room : ℕ → ℕ} (idx x : ℕ)
    → Sound r live room
    → In x (r.bucket 0 idx)
    → Away x (emptied r idx)
emptied-Away {r} idx x v h =
    put-Away r 0 idx x (no_blocks (r.bucket 0 idx)) refl (λ p i k. v.unique p i 0 idx x k h)

module _ {r : Resource} {live : ℕ → Option ℕ} {room : ℕ → ℕ} where
  -- What is left of a bucket after a pop takes its place.
  pub popped :
      (pool idx q : ℕ) (b : Bucket)
      → Sound r live room
      → idx < num_classes
      → Popped (r.bucket pool idx) b (some q) q
      → Kept live room idx (put r pool idx b, q)
  popped pool idx q b v low e =
      let old = contents (r.bucket pool idx) in
      let (out, once) = tail-Distinct q old (contents b) e.rest (v.distinct pool idx) in
      let here = has_head q old (contents b) e.rest in
      (
        put-Sound pool idx b v low (
            part-Fit pool idx b v once (λ x. has_tail x q old (contents b) e.rest)
              (omega (arith, e.count))),
        record {
          away = put-Away r pool idx q b out (λ p i h. v.unique p i pool idx q h here);
          idle = v.idle pool idx q here;
          fits = v.sized pool idx q here;
        },
      )

  -- A block moves into a bucket that is not full.
  pub pushed :
      (pool idx p : ℕ) (b : Bucket)
      → Sound r live room
      → idx < num_classes
      → Free r live room idx p
      → ((t : ℕ) → pool ≡ suc t → caches r t ≡ false → b.count ≡ 0)
      → Pushed (r.bucket pool idx) b p
      → Sound (put r pool idx b) live room
  pushed pool idx p b v low f gone e = put-Sound pool idx b v low record {
    alone = λ p' i q h k.
        elim (pushed_cases q p (contents b) (contents (r.bucket pool idx)) e.rest h) [
          | inl eq ↦ absurd (In-Away r q p p' i eq k f.away)
          | inr old ↦ v.unique p' i pool idx q k old
        ];
    distinct = subst Distinct (sym e.rest) (f.away pool idx, v.distinct pool idx);
    idle = λ q h. elim (pushed_cases q p (contents b) (contents (r.bucket pool idx)) e.rest h) [
      | inl eq ↦ ap live eq ∙ f.idle
      | inr old ↦ v.idle pool idx q old
    ];
    sized = λ q h. elim (pushed_cases q p (contents b) (contents (r.bucket pool idx)) e.rest h) [
      | inl eq ↦ ap room eq ∙ f.fits
      | inr old ↦ v.sized pool idx q old
    ];
    bounded = e.count;
    reachable = gone;
  }

  -- `pop(bucket&)` from the global pool into that of a thread that has not exited.
  pub refilled :
      (t idx q : ℕ)
      → Sound r live room
      → idx < num_classes
      → caches r t ≡ true
      → Popped (r.bucket 0 idx) (taken (r.bucket 0 idx) (r.bucket (suc t) idx)) (some q) q
      → Kept live room idx
          (put (emptied r idx) (suc t) idx (taken (r.bucket 0 idx) (r.bucket (suc t) idx)), q)
  refilled t idx q v low here e =
      let b = taken (r.bucket 0 idx) (r.bucket (suc t) idx) in
      let old = contents (r.bucket 0 idx) in
      let (out, once) = tail-Distinct q old (contents b) e.rest (v.distinct 0 idx) in
      let head = has_head q old (contents b) e.rest in
      let sub : (x : ℕ) → In x b → In x (r.bucket 0 idx) =
        λ x. has_tail x q old (contents b) e.rest in
      let gone : (x : ℕ) → In x (r.bucket 0 idx) → Away x (emptied r idx) =
        λ x. emptied-Away idx x v in
      (
        put-Sound (suc t) idx b
            (put-Sound 0 idx (no_blocks (r.bucket 0 idx)) v low (
              part-Fit 0 idx (no_blocks (r.bucket 0 idx)) v tt (λ x h. absurd (cc h))
                (omega arith)))
            low
            record {
              alone =
                  λ p i x h k. absurd (In-Away (emptied r idx) x x p i refl k (gone x (sub x h)));
              distinct = once;
              idle = λ x h. v.idle 0 idx x (sub x h);
              sized = λ x h. v.sized 0 idx x (sub x h);
              bounded = omega (arith, e.count, v.bounded 0 idx);
              reachable = λ u eq d. absurd (still_there t u r eq here d);
            },
        record {
          away =
              put-Away (emptied r idx) (suc t) idx q b out
                (λ p i k. absurd (In-Away (emptied r idx) q q p i refl k (gone q head)));
          idle = v.idle 0 idx q head;
          fits = v.sized 0 idx q head;
        },
      )
