-- ===== src/Testing/WriteStream/Moved.antt =====
-- What writes to a `test::write_stream` do to its state, and when it may be written.
use capy.Base.{
  ap, ap₂, subst, sym, ◌∙◌, ℕ, zero, suc, ◌≤◌, ◌<◌, ◌≡◌, refl, false, List, [], ◌∷◌, ◌++◌, map,
  arith, length, take, drop, All, has, Distinct, size_max, append-nil, append_assoc, map_append,
  length-drop,
}
use capy.Buffers.Bytes.{range}
use capy.Buffers.Copy.{Memory}
use capy.Buffers.Copy.Disjoint.{Apart}
use capy.Testing.WriteStream.{WriteStream}

-- The addresses lie below those that the stream's data may come to occupy.
abbrev pub Below : WriteStream → List ℕ → Type 0
Below s = All (λ a. a < s.storage)

-- The writes since `s` have appended the bytes at the addresses `xs` to the data, in order.
pub record Moved (xs : List ℕ) (s t : WriteStream) : Type 0 where
  pub storage : t.storage ≡ s.storage
  pub data_ : t.data_ ≡ s.data_ ++ map s.memory xs
  pub kept : (a : ℕ) → a < s.storage → t.memory a ≡ s.memory a
  pub below : Below s xs

-- The stream accepts something, the fuse does not throw, and nothing is expected.
pub record Ready (s : WriteStream) (xs : List ℕ) : Type 0 where
  pub chunk : 0 < s.max_write_size
  pub calm : s.f.throws ≡ false
  pub open_ : s.expect_ ≡ []
  pub fits : length xs ≤ size_max
  pub below : Below s xs

pub All-take : {A : Type 0} (P : A → Type 0) (n : ℕ) (xs : List A) → All P xs → All P (take n xs)
All-take P zero xs v = tt
All-take P (suc n) [] v = tt
All-take P (suc n) (x ∷ xs) (p, v) = (p, All-take P n xs v)

All-drop : {A : Type 0} (P : A → Type 0) (n : ℕ) (xs : List A) → All P xs → All P (drop n xs)
All-drop P zero xs v = v
All-drop P (suc n) [] v = tt
All-drop P (suc n) (x ∷ xs) (p, v) = All-drop P n xs v

All-append : {A : Type 0} (P : A → Type 0) (xs ys : List A) → All P xs → All P ys → All P (xs ++ ys)
All-append P [] ys v w = w
All-append P (x ∷ xs) ys (p, v) w = (p, All-append P xs ys v w)

pub map_below :
    (m m' : Memory) (b : ℕ) (xs : List ℕ)
    → All (λ a. a < b) xs
    → ((a : ℕ) → a < b → m' a ≡ m a)
    → map m' xs ≡ map m xs
map_below m m' b [] v same = refl
map_below m m' b (x ∷ xs) (p, v) same = ap₂ ◌∷◌ (same x p) (map_below m m' b xs v same)

pub has-range : (a p n : ℕ) → a < p → has a (range p n) ≡ false
has-range a p zero h = refl
has-range a p (suc n) h = ground (arith, has-range a (suc p) n (omega arith))

pub Distinct-range : (p n : ℕ) → Distinct (range p n)
Distinct-range p zero = tt
Distinct-range p (suc n) = (has-range p (suc p) n (omega arith), Distinct-range (suc p) n)

pub Apart-range : (p n b : ℕ) (xs : List ℕ) → b ≤ p → All (λ a. a < b) xs → Apart (range p n) xs
Apart-range p n b [] h v = tt
Apart-range p n b (x ∷ xs) h (k, v) = (has-range x p n (omega arith), Apart-range p n b xs h v)

pub Ready-drop : (n : ℕ) (s : WriteStream) (xs : List ℕ) → Ready s xs → Ready s (drop n xs)
Ready-drop n s xs v = record {
  chunk = v.chunk;
  calm = v.calm;
  open_ = v.open_;
  fits = omega (arith, v.fits, length-drop n xs);
  below = All-drop (λ a. a < s.storage) n xs v.below;
}

pub Moved-none : (s : WriteStream) → Moved [] s s
Moved-none s = record {
  storage = refl;
  data_ = sym (append-nil s.data_);
  kept = λ a h. refl;
  below = tt;
}

pub Moved-append :
    (xs ys : List ℕ) (s t u : WriteStream)
    → Distinct (xs ++ ys)
    → Moved xs s t
    → Moved ys t u
    → Moved (xs ++ ys) s u
Moved-append xs ys s t u distinct v w =
    let below = subst (λ b. All (λ a. a < b) ys) v.storage w.below in
    record {
      storage = w.storage ∙ v.storage;
      data_ =
          w.data_
          ∙ ap₂ ◌++◌ v.data_ (map_below s.memory t.memory s.storage ys below v.kept)
          ∙ append_assoc s.data_ (map s.memory xs) (map s.memory ys)
          ∙ ap (λ l. s.data_ ++ l) (sym (map_append s.memory xs ys));
      kept = λ a h. w.kept a (subst (λ b. a < b) (sym v.storage) h) ∙ v.kept a h;
      below = All-append (λ a. a < s.storage) xs ys v.below below;
    }
