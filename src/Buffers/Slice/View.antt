-- ===== src/Buffers/Slice/View.antt =====
-- The bytes that slices and cursors expose, as cuts of the bytes of the sequence.
use capy.Base.{
  ℕ, ◌+◌, ◌-◌, ◌≤◌, ◌<◌, ◌≡◌, refl, sym, ap, ap₂, ◌∙◌, inl, inr, List, [], ◌∷◌, ◌++◌, arith, ltb,
  leb, ◌==◌, Bool-cases, size_mod, size_max, length, take, drop, take-of_ge, take-nil, drop-nil,
  take-append_le, take-append_ge, length-drop, append-nil,
}
use capy.Buffers.{Buffer}
use capy.Buffers.Bytes.{
  range, bytes, bytes_of, length-range, take-range, drop-range, Inside, Inside-zero, Fits,
  Fits-cons, drop-bytes_le, drop-bytes_ge,
}
use capy.Buffers.Slice.{adjust, last_skip, adjusted, buffers, seek, walk, bounded, slice_of}

bytes-adjust :
    (b : Buffer) (f k : ℕ)
    → b.size < size_mod
    → f + k ≤ b.size
    → bytes (adjust b f k) ≡ take (b.size - f - k) (drop f (bytes b))
unfolding adjust
bytes-adjust b f k fits h =
    ap (range (b.data_ + f)) (omega arith)
    ∙ sym (take-range (b.size - f - k) (b.data_ + f) (b.size - f) (omega arith))
    ∙ ap (take (b.size - f - k)) (sym (drop-range f b.data_ b.size (omega arith)))

bytes-adjust_front :
    (b : Buffer) (f : ℕ) → b.size < size_mod → f ≤ b.size → bytes (adjust b f 0) ≡ drop f (bytes b)
bytes-adjust_front b f fits h =
    bytes-adjust b f 0 fits (omega arith)
    ∙ take-of_ge (b.size - f - 0) (drop f (bytes b))
        (omega (arith, length-drop f (bytes b), length-range b.data_ b.size))

last_skip_zero : (bs : List Buffer) → last_skip 0 bs ≡ 0
last_skip_zero [] = refl
last_skip_zero (b ∷ bs) = refl

-- With nothing trimmed from the back.
pub adjusted-drop :
    (f : ℕ) (bs : List Buffer)
    → Fits bs
    → Inside bs f
    → bytes_of (adjusted f 0 bs) ≡ drop f (bytes_of bs)
unfolding adjusted
adjusted-drop f [] fits h = sym (drop-nil f)
adjusted-drop f (b ∷ bs) fits h =
    let (small, rest) = Fits-cons b bs fits in
    ap₂ ◌++◌ (ap (λ k. bytes (adjust b f k)) (last_skip_zero bs) ∙ bytes-adjust_front b f small h)
      (adjusted-drop 0 bs rest (Inside-zero bs))
    ∙ sym (drop-bytes_le b bs f h)

walk-last_skip :
    (left f : ℕ) (bs : List Buffer) → 0 < left → last_skip (walk left f bs).1 (walk left f bs).0 ≡ 0
unfolding walk
walk-last_skip left f [] h = refl
walk-last_skip left f (b ∷ bs) h = ground arith

walk-take :
    (left f : ℕ) (bs : List Buffer)
    → Fits bs
    → Inside bs f
    → bytes_of (adjusted f (walk left f bs).1 (walk left f bs).0) ≡ take left (drop f (bytes_of bs))
unfolding walk adjusted
walk-take left f [] fits h = sym (ap (take left) (drop-nil f) ∙ take-nil left)
walk-take left f (b ∷ bs) fits h =
    let (small, rest) = Fits-cons b bs fits in
    let avail : length (drop f (bytes b)) ≡ b.size - f =
      omega (arith, length-drop f (bytes b), length-range b.data_ b.size) in
    elim (Bool-cases (left == 0)) [
      | inl none_left ↦
          rw none_left (ap (λ k. take k (drop f (bytes_of (b ∷ bs)))) {x = 0} (ground arith))
      | inr some_left ↦ rw some_left (elim (Bool-cases (leb left (b.size - f))) [
        | inl last ↦ rw last (
            append-nil _
            ∙ bytes-adjust b f (b.size - f - left) small (ground arith)
            ∙ ap (λ k. take k (drop f (bytes b))) (ground arith)
            ∙ sym (
                ap (take left) (drop-bytes_le b bs f h)
                ∙ take-append_le left (drop f (bytes b)) (bytes_of bs) (ground arith)))
        | inr on ↦ rw on (
            ap₂ ◌++◌
              (ap (λ k. bytes (adjust b f k))
                  (walk-last_skip (left - (b.size - f)) 0 bs (ground arith))
                ∙ bytes-adjust_front b f small h)
              (walk-take (left - (b.size - f)) 0 bs rest (Inside-zero bs))
            ∙ sym (
                ap (take left) (drop-bytes_le b bs f h)
                ∙ take-append_ge left (drop f (bytes b)) (bytes_of bs) (ground arith)
                ∙ ap (λ k. drop f (bytes b) ++ take (left - k) (bytes_of bs)) avail))
      ])
    ]

record Sought (bs : List Buffer) (skip : ℕ) (items : List Buffer) (front : ℕ) : Type 0 where
  same : drop front (bytes_of items) ≡ drop skip (bytes_of bs)
  inside : Inside items front
  fits : Fits items

seek-Sought :
    (skip : ℕ) (bs : List Buffer) → Fits bs → Sought bs skip (seek skip bs).0 (seek skip bs).1
unfolding seek
seek-Sought skip [] fits = record { same = sym (drop-nil skip); inside = tt; fits = fits }
seek-Sought skip (b ∷ bs) fits = elim (Bool-cases (ltb skip b.size)) [
  | inl here ↦ rw here (record { same = refl; inside = ground arith; fits = fits })
  | inr past ↦ rw past (
      let r = seek-Sought (skip - b.size) bs (Fits-cons b bs fits).1 in
      record {
        same = r.same ∙ sym (drop-bytes_ge b bs skip (ground arith));
        inside = r.inside;
        fits = r.fits;
      })
]

bounded-take :
    (items : List Buffer) (front len : ℕ)
    → Fits items
    → Inside items front
    → bytes_of (buffers (bounded items front len)) ≡ take len (drop front (bytes_of items))
unfolding bounded buffers
bounded-take [] front len fits h = sym (ap (take len) (drop-nil front) ∙ take-nil len)
bounded-take (b ∷ bs) front len fits h = elim (Bool-cases (len == size_max)) [
  | inl whole ↦ rw whole (
      adjusted-drop front (b ∷ bs) fits h
      ∙ sym (
          take-of_ge len (drop front (bytes_of (b ∷ bs)))
            (ground (arith, length-drop front (bytes_of (b ∷ bs))))))
  | inr cut ↦ rw cut (walk-take len front (b ∷ bs) fits h)
]

-- A slice of a sequence of less than 2^64 bytes exposes just the bytes [offset, offset + length) of
-- it, as far as there are any, wherever the cuts fall in its buffers.
pub slice_of-take-drop :
    (bs : List Buffer) (offset len : ℕ)
    → Fits bs
    → bytes_of (buffers (slice_of bs offset len)) ≡ take len (drop offset (bytes_of bs))
unfolding slice_of
slice_of-take-drop bs offset len fits =
    let s = seek-Sought offset bs fits in
    bounded-take (seek offset bs).0 (seek offset bs).1 len s.fits s.inside ∙ ap (take len) s.same
