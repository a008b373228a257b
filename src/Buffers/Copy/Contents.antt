-- ===== src/Buffers/Copy/Contents.antt =====
-- What the bytes of the two sequences are after `buffer_copy`.
use capy.Base.{
  Distinct, ℕ, ◌≤◌, min, ◌≡◌, refl, ap, ap₂, ◌∙◌, false, List, [], ◌∷◌, ◌++◌, map, some, arith,
  length, take, has, has-append_right, length-take, take-nil, take-take, take-length,
}
use capy.Buffers.{Buffer}
use capy.Buffers.Bytes.{bytes_of}
use capy.Buffers.Copy.{Memory, store, buffer_copy}
use capy.Buffers.Copy.Disjoint.{Apart, has-take, Distinct-take, Apart-take}
use capy.Buffers.Copy.Refine.{byte_copy, buffer_copy-byte_copy}

byte_copy_outside :
    (m : Memory) (ds ss : List ℕ) (a : ℕ) → has a ds ≡ false → byte_copy m ds ss a ≡ m a
unfolding byte_copy store
byte_copy_outside m [] ss a h = refl
byte_copy_outside m (d ∷ ds) [] a h = refl
byte_copy_outside m (d ∷ ds) (s ∷ ss) a h =
    ground (arith, byte_copy_outside (store m d (m s)) ds ss a)

store_same : (m : Memory) (a v : ℕ) → store m a v a ≡ v
unfolding store
store_same m a v = ground arith

-- A byte that is read later is not written first.
map-store :
    (m : Memory) (d v : ℕ) (ss : List ℕ) → has d ss ≡ false → map (store m d v) ss ≡ map m ss
unfolding store
map-store m d v [] h = refl
map-store m d v (s ∷ ss) h = ap₂ ◌∷◌ (ground arith) (map-store m d v ss (ground arith))

Apart-sym_cons : (d : ℕ) (ds ss : List ℕ) → Apart (d ∷ ds) ss → (has d ss ≡ false) × Apart ds ss
Apart-sym_cons d ds [] h = (refl, tt)
Apart-sym_cons d ds (s ∷ ss) h =
    let r = Apart-sym_cons d ds ss h.1 in (ground arith, (ground arith, r.1))

-- The right part of a list without repetition is apart from the left one.
pub Apart-of_Distinct : (xs ys : List ℕ) → Distinct (xs ++ ys) → Apart ys xs
Apart-of_Distinct [] ys h = tt
Apart-of_Distinct (x ∷ xs) ys h = (has-append_right x xs ys h.0, Apart-of_Distinct xs ys h.1)

-- Bytes that are not written keep their values.
pub map_outside :
    (m m' : Memory) (xs ys : List ℕ)
    → ((a : ℕ) → has a xs ≡ false → m' a ≡ m a)
    → Apart xs ys
    → map m' ys ≡ map m ys
map_outside m m' xs [] same h = refl
map_outside m m' xs (y ∷ ys) same h = ap₂ ◌∷◌ (same y h.0) (map_outside m m' xs ys same h.1)

byte_copy-map :
    (m : Memory) (ds ss : List ℕ)
    → Distinct ds
    → Apart ds ss
    → length ds ≤ length ss
    → map (byte_copy m ds ss) ds ≡ map m (take (length ds) ss)
unfolding byte_copy
byte_copy-map m [] ss h k le = refl
byte_copy-map m (d ∷ ds) [] h k le = absurd (omega arith)
byte_copy-map m (d ∷ ds) (s ∷ ss) h k le =
    let r = Apart-sym_cons d ds ss k.1 in
    ap₂ ◌∷◌ (byte_copy_outside (store m d (m s)) ds ss d h.0 ∙ store_same m d (m s)) (
      byte_copy-map (store m d (m s)) ds ss h.1 r.1 (omega arith)
      ∙ map-store m d (m s) (take (length ds) ss) (has-take d (length ds) ss r.0))

-- Only as many destination bytes count as there are source bytes.
byte_copy-take :
    (m : Memory) (ds ss : List ℕ) → byte_copy m ds ss ≡ byte_copy m (take (length ss) ds) ss
unfolding byte_copy
byte_copy-take m [] ss = rw take-nil refl
byte_copy-take m (d ∷ ds) [] = refl
byte_copy-take m (d ∷ ds) (s ∷ ss) = byte_copy-take (store m d (m s)) ds ss

-- The number of bytes that `buffer_copy` copies.
abbrev pub copied : List Buffer → List Buffer → ℕ → ℕ
copied dest src at_most = min (min (length (bytes_of src)) (length (bytes_of dest))) at_most

-- Where no byte of the destination stands twice in it or belongs to the source, the first copied
-- bytes of the destination are afterwards those of the source before, and every other byte of
-- memory is as it was.
pub buffer_copy-contents :
    (m : Memory) (dest src : List Buffer) (at_most : ℕ)
    → Distinct (bytes_of dest)
    → Apart (bytes_of dest) (bytes_of src)
    → let n = copied dest src at_most in
      (m' : Memory) × (buffer_copy m dest src at_most ≡ some (m', n))
      × (map m' (take n (bytes_of dest)) ≡ map m (take n (bytes_of src)))
      × ((a : ℕ) → has a (take n (bytes_of dest)) ≡ false → m' a ≡ m a)
buffer_copy-contents m dest src at_most h k =
    let D = bytes_of dest in
    let S = bytes_of src in
    let n = copied dest src at_most in
    let cut : take (length S) (take at_most D) ≡ take n D =
      take-take (length S) at_most D
      ∙ take-length (min (length S) at_most) D
      ∙ ap (λ j. take j D) (omega arith) in
    let len : length (take n D) ≡ n = length-take n D ∙ omega arith in
    (
      byte_copy m (take n D) S,
      buffer_copy-byte_copy m dest src at_most k
          ∙ ap (λ (x : Memory). some (x, n))
              (byte_copy-take m (take at_most D) S ∙ ap (λ l. byte_copy m l S) cut),
      byte_copy-map m (take n D) S (Distinct-take n D h) (Apart-take n D S k) (omega arith)
          ∙ ap (λ j. map m (take j S)) len,
      λ a out. byte_copy_outside m (take n D) S a out,
    )
