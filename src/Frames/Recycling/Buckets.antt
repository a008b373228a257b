-- ===== src/Frames/Recycling/Buckets.antt =====
-- A bucket as the list of its blocks, the one to be popped first.
use capy.Base.{
  ℕ, zero, suc, ◌+◌, ◌-◌, ◌<◌, ◌≤◌, ◌≡◌, refl, sym, ap, ap₂, ◌∙◌, ◌⊎◌, inl, inr, arith, Bool, true,
  false, List, [], ◌∷◌, Option, none, some, ltb, leb, ◌==◌, if◌then◌else◌, Bool-cases,
}
use capy.Frames.Recycling.{Bucket, pop, refill, push, bucket_capacity}

abbrev pub first : (ℕ → ℕ) → ℕ → List ℕ
first f zero = []
first f (suc n) = f n ∷ first f n

abbrev pub contents : Bucket → List ℕ
contents b = first b.ptrs b.count

first-agree : (f g : ℕ → ℕ) (n : ℕ) → ((i : ℕ) → i < n → f i ≡ g i) → first f n ≡ first g n
first-agree f g zero h = refl
first-agree f g (suc n) h =
    ap₂ ◌∷◌ (h n (omega arith)) (first-agree f g n (λ i k. h i (omega (arith, k))))

first-pred : (f : ℕ → ℕ) (n : ℕ) → 0 < n → first f n ≡ f (n - 1) ∷ first f (n - 1)
first-pred f zero h = absurd (omega arith)
first-pred f (suc n) h = ap (λ k. f k ∷ first f k) (omega arith)

-- A pop takes the first block, if there is one.
pub record Popped (b : Bucket) (b' : Bucket) (o : Option ℕ) (p : ℕ) : Type 0 where
  pub block : o ≡ some p
  pub rest : contents b ≡ p ∷ contents b'
  pub count : b'.count < b.count

pub pop-cases :
    (b : Bucket)
    → ((pop b ≡ (b, none)) × (b.count ≡ 0))
      ⊎ ((p : ℕ) × (pop b ≡ (record b { count = b.count - 1 }, some p))
          × Popped b (record b { count = b.count - 1 }) (some p) p)
unfolding pop
pop-cases b = elim (Bool-cases (b.count == 0)) [
  | inl h ↦ inl (
    ap
        (λ c.
          if c then (b, none) else (record b { count = b.count - 1 }, some (b.ptrs (b.count - 1))))
        h,
    ground (arith, h),
  )
  | inr h ↦ inr (
    b.ptrs (b.count - 1),
    ap
        (λ c.
          if c then (b, none) else (record b { count = b.count - 1 }, some (b.ptrs (b.count - 1))))
        h,
    record {
      block = refl;
      rest = first-pred b.ptrs b.count (ground (arith, h));
      count = ground (arith, h);
    },
  )
]

abbrev pub taken : Bucket → Bucket → Bucket
taken b into = record {
  count = b.count - 1;
  ptrs = λ i. if ltb i b.count then b.ptrs i else into.ptrs i;
}

pub refill-cases :
    (b into : Bucket)
    → ((refill b into ≡ (b, into, none)) × (b.count ≡ 0))
      ⊎ ((p : ℕ) × (refill b into ≡ (record b { count = 0 }, taken b into, some p))
          × Popped b (taken b into) (some p) p)
unfolding refill
refill-cases b into =
    let go : Bool → Bucket × Bucket × Option ℕ = λ c.
      if c
      then (b, into, none)
      else (record b { count = 0 }, taken b into, some (b.ptrs (b.count - 1))) in
    elim (Bool-cases (b.count == 0)) [
      | inl h ↦ inl (ap go h, ground (arith, h))
      | inr h ↦ inr (
        b.ptrs (b.count - 1),
        ap go h,
        record {
          block = refl;
          rest =
              first-pred b.ptrs b.count (ground (arith, h))
              ∙ ap (◌∷◌ (b.ptrs (b.count - 1)))
                  (first-agree b.ptrs (taken b into).ptrs (b.count - 1) (λ i k. ground (arith, k)));
          count = ground (arith, h);
        },
      )
    ]

-- A push puts the block first, or finds the bucket full.
pub record Pushed (b : Bucket) (b' : Bucket) (p : ℕ) : Type 0 where
  pub rest : contents b' ≡ p ∷ contents b
  pub count : b'.count ≤ bucket_capacity

abbrev pub grown : Bucket → ℕ → Bucket
grown b p = record { count = b.count + 1; ptrs = λ i. if i == b.count then p else b.ptrs i }

pred_add : (n : ℕ) → n + 1 - 1 ≡ n
pred_add n = omega arith

at_end : (b : Bucket) (p : ℕ) → (grown b p).ptrs b.count ≡ p
at_end b p = ground arith

below_end : (b : Bucket) (p i : ℕ) → i < b.count → b.ptrs i ≡ (grown b p).ptrs i
below_end b p i k = ground (arith, k)

pub push-cases :
    (b : Bucket) (p : ℕ)
    → (push b p ≡ (b, false)) ⊎ ((push b p ≡ (grown b p, true)) × Pushed b (grown b p) p)
unfolding push
push-cases b p =
    let go : Bool → Bucket × Bool = λ c. if c then (b, false) else (grown b p, true) in
    elim (Bool-cases (leb bucket_capacity b.count)) [
      | inl h ↦ inl (ap go h)
      | inr h ↦ inr (
        ap go h,
        record {
          rest =
              first-pred (grown b p).ptrs (b.count + 1) (omega arith)
              ∙ ap (λ k. (grown b p).ptrs k ∷ first (grown b p).ptrs k) (pred_add b.count)
              ∙ ap₂ ◌∷◌ (at_end b p)
                  (sym (first-agree b.ptrs (grown b p).ptrs b.count (below_end b p)));
          count = ground (arith, h);
        },
      )
    ]
