-- ===== src/Buffers/Slice/Consume.antt =====
-- `consuming_buffers` and the slice of a single buffer.
use capy.Base.{
  ℕ, ◌+◌, ◌-◌, ◌≡◌, refl, sym, ap, ◌∙◌, inl, inr, List, [], ◌∷◌, arith, ltb, ◌==◌, Bool-cases, take,
  drop, take-of_ge, drop-nil, drop-drop,
}
use capy.Buffers.{Buffer, advance}
use capy.Buffers.Bytes.{
  bytes, bytes_of, length-range, take-range, bytes-advance, Inside, Inside-zero, Fits, Fits-cons,
  drop-bytes_ge,
}
use capy.Buffers.Slice.{
  buffers, buffer_slice, Consuming, consuming_buffers, remaining, consume_loop, consume,
}
use capy.Buffers.Slice.View.{adjusted-drop}

-- The cursor stands in its first buffer, and the bytes that are left fit a `std::size_t`.
pub record IsCursor (c : Consuming) : Type 0 where
  pub fits : Fits c.items
  pub inside : Inside c.items c.front_skip

-- The bytes that `data()` exposes.
unfoldable pub unread : Consuming → List ℕ
unfolding buffers remaining
unread c = bytes_of (buffers (remaining c))

pub unread-drop : (c : Consuming) → IsCursor c → unread c ≡ drop c.front_skip (bytes_of c.items)
unfolding unread
unread-drop c v = adjusted-drop c.front_skip c.items v.fits v.inside

record Consumed (n front : ℕ) (bs : List Buffer) (c : Consuming) : Type 0 where
  valid : IsCursor c
  left : drop c.front_skip (bytes_of c.items) ≡ drop (front + n) (bytes_of bs)

consume_loop-Consumed :
    (n front : ℕ) (bs : List Buffer)
    → Fits bs
    → Inside bs front
    → Consumed n front bs (consume_loop n front bs)
unfolding consume_loop
consume_loop-Consumed n front [] fits h = record {
  valid = record { fits = fits; inside = tt };
  left = drop-nil front ∙ sym (drop-nil (front + n));
}
consume_loop-Consumed n front (b ∷ bs) fits h = elim (Bool-cases (n == 0)) [
  | inl done ↦ rw done (record {
    valid = record { fits = fits; inside = h };
    left = ap (λ k. drop k (bytes_of (b ∷ bs))) (ground arith);
  })
  | inr more ↦ rw more (elim (Bool-cases (ltb n (b.size - front))) [
    | inl within ↦
        rw within (record { valid = record { fits = fits; inside = ground arith }; left = refl })
    | inr past ↦ rw past (
        let r =
          consume_loop-Consumed (n - (b.size - front)) 0 bs (Fits-cons b bs fits).1
            (Inside-zero bs) in
        record {
          valid = r.valid;
          left =
              r.left
              ∙ ap (λ k. drop k (bytes_of bs)) (ground arith)
              ∙ sym (drop-bytes_ge b bs (front + n) (ground arith));
        })
  ])
]

-- On a valid cursor consume(n) keeps the cursor valid and discards the first n bytes of what is
-- left, or all of it.
pub consume-drop :
    (c : Consuming) (n : ℕ)
    → IsCursor c
    → IsCursor (consume c n) × (unread (consume c n) ≡ drop n (unread c))
unfolding consume
consume-drop c n v =
    let r = consume_loop-Consumed n c.front_skip c.items v.fits v.inside in
    (
      r.valid,
      unread-drop (consume_loop n c.front_skip c.items) r.valid
          ∙ r.left
          ∙ sym (ap (drop n) (unread-drop c v) ∙ drop-drop n c.front_skip (bytes_of c.items)),
    )

-- A new cursor has the whole sequence before it.
pub consuming_buffers-bytes :
    (s : List Buffer)
    → Fits s
    → IsCursor (consuming_buffers s) × (unread (consuming_buffers s) ≡ bytes_of s)
unfolding consuming_buffers
consuming_buffers-bytes s fits =
    let c : Consuming = record { items = s; front_skip = 0 } in
    let v : IsCursor c = record { fits = fits; inside = Inside-zero s } in (v, unread-drop c v)

-- The slice of one buffer, adjusted in place, exposes the same bytes as that of a sequence would.
pub buffer_slice-take-drop :
    (b : Buffer) (offset len : ℕ)
    → bytes (buffer_slice b offset len) ≡ take len (drop offset (bytes b))
unfolding buffer_slice
buffer_slice-take-drop b offset len = elim (Bool-cases (ltb len (advance b offset).size)) [
  | inl cut ↦ rw cut (
      sym (take-range len (advance b offset).data_ (advance b offset).size (ground arith))
      ∙ ap (take len) (bytes-advance b offset))
  | inr whole ↦ rw whole (
      sym (
        take-of_ge len (bytes (advance b offset))
          (ground (arith, length-range (advance b offset).data_ (advance b offset).size)))
      ∙ ap (take len) (bytes-advance b offset))
]
