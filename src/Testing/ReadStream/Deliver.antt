-- ===== src/Testing/ReadStream/Deliver.antt =====
-- The delivery of data by `test::read_stream` into a buffer sequence.
use capy.Base.{
  ℕ, ◌+◌, ◌-◌, ◌≤◌, ◌<◌, ◌≡◌, sym, ap, ap₂, subst, ◌∙◌, inl, inr, false, List, [], ◌∷◌, map, none,
  arith, leb, ltb, Bool-cases, size_max, if◌then◌else◌, length, take, drop, has, take-map, drop-map,
  length-take, append-nil,
}
use capy.Buffers.{Buffer, make_buffer}
use capy.Buffers.Bytes.{bytes_of, range, length-range, take-range, drop-range}
use capy.Buffers.Copy.{Memory}
use capy.Buffers.Copy.Contents.{map_outside, copied, buffer_copy-contents}
use capy.Buffers.Copy.Disjoint.{Apart, Apart-take, Apart-take_right, Apart-drop_right}
use capy.Testing.ReadStream.{ReadStream, deliver}
use capy.Testing.ReadStream.Moved.{incoming, Moved, Moved-none, Ready, Delivered}

-- The part of the data that one call offers.
part_of : ReadStream → ℕ
part_of s =
    let avail = s.size - s.pos in if ltb s.max_read_size avail then s.max_read_size else avail

part_bounds :
    (s : ReadStream)
    → 0 < s.max_read_size
    → s.pos < s.size
    → (0 < part_of s) × (part_of s ≤ s.size - s.pos)
unfolding part_of
part_bounds s h k = (ground arith, ground arith)

length-source : (p n : ℕ) → length (bytes_of (make_buffer p n ∷ [])) ≡ n
length-source p n = ap length (append-nil (range p n)) ∙ length-range p n

Apart-unread :
    (s : ReadStream) (B : List ℕ) (k n : ℕ)
    → s.pos + k + n ≤ s.size
    → Apart B (range s.storage s.size)
    → Apart B (range (s.storage + (s.pos + k)) n)
Apart-unread s B k n h v =
    subst (Apart B)
      (ap (take n) (drop-range (s.pos + k) s.storage s.size (omega arith))
        ∙ take-range n (s.storage + (s.pos + k)) (s.size - (s.pos + k)) (omega arith))
      (Apart-take_right n B (drop (s.pos + k) (range s.storage s.size))
        (Apart-drop_right (s.pos + k) B (range s.storage s.size) v))

-- A copy of `n` bytes to the front of `B` that leaves the rest of the memory alone.
copy-Moved :
    (s : ReadStream) (B : List ℕ) (m : Memory) (n : ℕ)
    → Apart B (range s.storage s.size)
    → n ≤ length B
    → s.pos + n ≤ s.size
    → map m (take n B) ≡ map s.memory (range (s.storage + s.pos) n)
    → ((a : ℕ) → has a (take n B) ≡ false → m a ≡ s.memory a)
    → Moved (take n B) s (record s { memory = m; pos = s.pos + n })
copy-Moved s B m n apart le room got out =
    let len : length (take n B) ≡ n = length-take n B ∙ omega arith in
    record {
      filled =
          got
          ∙ ap (map s.memory)
              (sym (take-range n (s.storage + s.pos) (s.size - s.pos) (omega arith)))
          ∙ sym (take-map s.memory n (range (s.storage + s.pos) (s.size - s.pos)))
          ∙ ap (λ k. take k (incoming s)) (sym len);
      rest =
          map_outside s.memory m (take n B) (range (s.storage + (s.pos + n)) (s.size - (s.pos + n)))
            out (Apart-take n B _ (Apart-unread s B n (s.size - (s.pos + n)) (omega arith) apart))
          ∙ ap (map s.memory) (
              ap₂ range (omega arith) (omega arith)
              ∙ sym (drop-range n (s.storage + s.pos) (s.size - s.pos) (omega arith)))
          ∙ sym (drop-map s.memory n (range (s.storage + s.pos) (s.size - s.pos)))
          ∙ ap (λ k. drop k (incoming s)) (sym len);
      outside = out;
    }

abbrev source : ReadStream → List Buffer
source s = make_buffer (s.storage + s.pos) (part_of s) ∷ []

Apart-source :
    (s : ReadStream) (B : List ℕ)
    → part_of s ≤ s.size - s.pos
    → s.pos ≤ s.size
    → Apart B (range s.storage s.size)
    → Apart B (bytes_of (source s))
Apart-source s B within inside v =
    let offset : s.storage + (s.pos + 0) ≡ s.storage + s.pos = omega arith in
    subst (Apart B)
      (ap (λ k. range k (part_of s)) offset
        ∙ sym (append-nil (range (s.storage + s.pos) (part_of s))))
      (Apart-unread s B 0 (part_of s) (omega arith) v)

-- The outcome of a call that copies, from what `buffer_copy` has done.
copied-Delivered :
    (s : ReadStream) (B : List ℕ) (m : Memory) (n : ℕ)
    → Ready s B
    → 0 < n
    → n ≤ length B
    → n ≤ part_of s
    → part_of s ≤ s.size - s.pos
    → map m (take n B) ≡ map s.memory (take n (bytes_of (source s)))
    → ((a : ℕ) → has a (take n B) ≡ false → m a ≡ s.memory a)
    → Delivered s B (record s { memory = m; pos = s.pos + n }, none, n)
copied-Delivered s B m n v pos le part room got out = record {
  conform = (pos, le);
  ready = record {
    chunk = v.chunk;
    calm = v.calm;
    inside = omega (arith, v.inside);
    distinct = v.distinct;
    fits = v.fits;
    apart = v.apart;
  };
  moved =
      copy-Moved s B m n v.apart le (omega (arith, v.inside))
        (got
          ∙ ap (map s.memory) (
              ap (take n) (append-nil (range (s.storage + s.pos) (part_of s)))
              ∙ take-range n (s.storage + s.pos) (part_of s) part))
        out;
}

pub deliver-Delivered :
    (s : ReadStream) (bs : List Buffer)
    → 0 < length (bytes_of bs)
    → Ready s (bytes_of bs)
    → Delivered s (bytes_of bs) (deliver s bs)
unfolding deliver part_of
deliver-Delivered s bs pos v = elim (Bool-cases (leb s.size s.pos)) [
  | inl over ↦ rw over (record { conform = pos; ready = v; moved = Moved-none s })
  | inr more ↦
      let n = copied bs (source s) size_max in
      let (some_left, within) = part_bounds s v.chunk (ground arith) in
      let len = length-source (s.storage + s.pos) (part_of s) in
      let apart = Apart-source s (bytes_of bs) within v.inside v.apart in
      let r = buffer_copy-contents s.memory bs (source s) size_max v.distinct apart in
      rw (more, r.1)
        (copied-Delivered s (bytes_of bs) r.0 n v (omega (arith, v.fits)) (omega arith)
          (omega arith) within r.2 r.3)
]
