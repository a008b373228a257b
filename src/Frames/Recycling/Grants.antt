-- ===== src/Frames/Recycling/Grants.antt =====
-- `allocate_fast` for a request that is pooled and for one that is not.
use capy.Base.{
  ℕ, ◌<◌, ◌≤◌, ◌^◌, ◌≡◌, refl, sym, ap, subst, ◌∙◌, inl, inr, arith, true, false, ◌==◌,
  if◌then◌else◌, Bool-cases, Option, none, some, leb, has,
}
use capy.Frames.Recycling.{Resource, num_classes, round_up_pow2, allocate_fast, allocate_class}
use capy.Frames.Recycling.Buckets.{contents}
use capy.Frames.Recycling.Classes.{class_of, class_size, FitsClass, class_index_lem}
use capy.Frames.Recycling.Caches.{In, Away, Sound, users-Sound}
use capy.Frames.Recycling.Calls.{allocate_class-Kept}
use capy.Frames.Recycling.System.{System, update, new_size}

-- The user's block holds the request, and has its class's size if there is a class.
pub record Roomy (bytes room : ℕ) : Type 0 where
  pub asked : bytes ≤ 2 ^ 63
  pub enough : bytes ≤ room
  pub class : class_of bytes < num_classes → room ≡ class_size (class_of bytes)

pub record Safe (s : System) : Type 0 where
  pub sound : Sound s.resource s.live s.room
  pub roomy : (q bytes : ℕ) → s.live q ≡ some bytes → Roomy bytes (s.room q)

-- The block of a user, which no pool holds.
pub record Taken (r : Resource) (live : ℕ → Option ℕ) (room : ℕ → ℕ) (bytes q : ℕ) : Type 0 where
  pub away : Away q r
  pub idle : live q ≡ none
  pub roomy : Roomy bytes (room q)

abbrev pub Obtained : (ℕ → Option ℕ) → (ℕ → ℕ) → ℕ → Resource × ℕ → Type 0
Obtained live room bytes (r, q) = Sound r live room × Taken r live room bytes q

self : (q : ℕ) → (q == q) ≡ true
self q = ground arith

pub update_same {ℓ} : {A : Type ℓ} (f : ℕ → A) (q : ℕ) (a : A) → update f q a q ≡ a
update_same f q a = ap (λ c. if c then a else f q) (self q)

pub update_other {ℓ} :
    {A : Type ℓ} (f : ℕ → A) (q x : ℕ) (a : A) → (x == q) ≡ false → update f q a x ≡ f x
update_other f q x a h = ap (λ c. if c then a else f x) h

pub apart : (x q : ℕ) (r : Resource) (p i : ℕ) → In x (r.bucket p i) → Away q r → (x == q) ≡ false
apart x q r p i h away = elim (Bool-cases (x == q)) [
  | inl same ↦
      let e : x ≡ q = ground (arith, same) in
      absurd (cc (ap (λ y. has y (contents (r.bucket p i))) e, h, away p i))
  | inr other ↦ other
]

-- A pooled request.
allocate_small :
    (r : Resource) (live : ℕ → Option ℕ) (room : ℕ → ℕ) (t bytes p : ℕ)
    → bytes ≤ 2 ^ 63
    → Sound r live room
    → Away p r
    → live p ≡ none
    → room p ≡ new_size bytes
    → FitsClass bytes
    → Obtained live room bytes (allocate_fast r t bytes p)
unfolding allocate_fast
allocate_small r live room t bytes p h v away idle size fit =
    let low : leb num_classes (class_of bytes) ≡ false = ground (arith, fit.pooled) in
    let wide : room p ≡ class_size (class_of bytes) =
      size ∙ ap (λ c. if c then bytes else round_up_pow2 bytes) low ∙ fit.rounded in
    let (v', f) =
      allocate_class-Kept r live room t (class_of bytes) p v fit.pooled
        record { away = away; idle = idle; fits = wide } in
    subst (Obtained live room bytes)
      (ap (λ c. if c then (r, p) else allocate_class r t (class_of bytes) p) (sym low))
      (
        v',
        record {
          away = f.away;
          idle = f.idle;
          roomy = record {
            asked = h;
            enough = subst (λ n. bytes ≤ n) (sym f.fits) fit.enough;
            class = λ _. f.fits;
          };
        },
      )

-- A request that is too large for the pools.
allocate_large :
    (r : Resource) (live : ℕ → Option ℕ) (room : ℕ → ℕ) (t bytes p : ℕ)
    → bytes ≤ 2 ^ 63
    → Sound r live room
    → Away p r
    → live p ≡ none
    → room p ≡ new_size bytes
    → class_of bytes ≡ num_classes
    → Obtained live room bytes (allocate_fast r t bytes p)
unfolding allocate_fast
allocate_large r live room t bytes p h v away idle size high =
    let big : leb num_classes (class_of bytes) ≡ true = ground (arith, high) in
    let exact : room p ≡ bytes = size ∙ ap (λ c. if c then bytes else round_up_pow2 bytes) big in
    subst (Obtained live room bytes)
      (ap (λ c. if c then (r, p) else allocate_class r t (class_of bytes) p) (sym big))
      (
        v,
        record {
          away = away;
          idle = idle;
          roomy = record {
            asked = h;
            enough = omega (arith, exact);
            class = λ k. absurd (omega (arith, k, high));
          };
        },
      )

pub allocated :
    (s : System) (t bytes p : ℕ)
    → Safe s
    → bytes ≤ 2 ^ 63
    → Away p s.resource
    → s.live p ≡ none
    → Obtained s.live (update s.room p (new_size bytes)) bytes (allocate_fast s.resource t bytes p)
allocated s t bytes p safe h away idle =
    let room = update s.room p (new_size bytes) in
    let size = update_same s.room p (new_size bytes) in
    let v : Sound s.resource s.live room = users-Sound s.live room safe.sound (λ q i x k.
      (refl, update_other s.room p x (new_size bytes) (apart x p s.resource q i k away))) in
    elim (class_index_lem bytes h) [
      | inl (_, high) ↦ allocate_large s.resource s.live room t bytes p h v away idle size high
      | inr (_, fit) ↦ allocate_small s.resource s.live room t bytes p h v away idle size fit
    ]
