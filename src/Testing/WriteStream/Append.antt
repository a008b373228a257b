-- ===== src/Testing/WriteStream/Append.antt =====
-- What `test::write_stream` appends to its data.
use capy.Base.{
  if◌then◌else◌, ap, ap₂, subst, sym, ◌∙◌, ℕ, ◌+◌, ◌<◌, ◌≡◌, refl, false, List, [], ◌∷◌, ◌++◌, map,
  none, some, arith, length, take, drop, min, has, Distinct, append-nil,
}
use capy.Error.{Error, capy_error}
use capy.Buffers.{Buffer, make_buffer}
use capy.Buffers.Bytes.{bytes_of, range, length-range, take-range, buffer_size-bytes}
use capy.Buffers.Copy.{Memory}
use capy.Buffers.Copy.Contents.{copied, buffer_copy-contents}
use capy.Buffers.Copy.Disjoint.{Apart, has-take}
use capy.Testing.Fuse.{Fuse}
use capy.Testing.WriteStream.{WriteStream, same_bytes, consume_match, append_data, matched, accept}
use capy.Testing.WriteStream.Moved.{Moved, Ready, All-take, has-range, Distinct-range, Apart-range}

consume_match-idle : (s : WriteStream) → s.expect_ ≡ [] → consume_match s ≡ (s, none)
unfolding consume_match
consume_match-idle s h =
    let none_common : min (length s.data_) (length s.expect_) ≡ 0 =
      ap (λ l. min (length s.data_) (length l)) h ∙ omega arith in
    ap
      (λ k.
        if same_bytes (take k s.data_) (take k s.expect_)
        then (record s { data_ = drop k s.data_; expect_ = drop k s.expect_ }, none)
        else (s, some (capy_error Error.test_failure)))
      none_common

append_data-copy :
    (s : WriteStream) (bs : List Buffer)
    → Ready s (bytes_of bs)
    → let n = min (length (bytes_of bs)) s.max_write_size in
      (m : Memory) × ((a : ℕ) → a < s.storage → m a ≡ s.memory a)
      × (append_data s bs
          ≡ (record s { memory = m; data_ = s.data_ ++ map s.memory (take n (bytes_of bs)) }, n))
unfolding append_data
append_data-copy s bs v =
    let B = bytes_of bs in
    let n = min (length B) s.max_write_size in
    let p = s.storage + length s.data_ in
    let dest = make_buffer p n ∷ [] in
    let e : bytes_of dest ≡ range p n = append-nil (range p n) in
    let r =
      buffer_copy-contents s.memory dest bs n (subst Distinct (sym e) (Distinct-range p n))
        (subst (λ l. Apart l B) (sym e) (Apart-range p n s.storage B (omega arith) v.below)) in
    let len : length (bytes_of dest) ≡ n = ap length e ∙ length-range p n in
    let c : copied dest bs n ≡ n = omega (arith, len) in
    let out : (a : ℕ) → a < s.storage → has a (take (copied dest bs n) (bytes_of dest)) ≡ false =
      λ a h.
        has-take a (copied dest bs n) (bytes_of dest)
          (subst (λ l. has a l ≡ false) (sym e) (has-range a p n (omega (arith, h)))) in
    let got : map r.0 (range p n) ≡ map s.memory (take n B) =
      ap (map r.0) (sym (take-range n p n (omega arith)) ∙ ap₂ take (sym c) (sym e))
      ∙ r.2
      ∙ ap (λ k. map s.memory (take k B)) c in
    (
      r.0,
      λ a h. r.3 a (out a h),
      rw (buffer_size-bytes bs (omega (arith, v.fits)), r.1)
          (ap (λ l. (record s { memory = r.0; data_ = s.data_ ++ l }, n)) got),
    )

-- A call that ends with an error leaves the stream as it was, but for its fuse.
pub refused :
    (s : WriteStream) (bs : List Buffer) (f' : Fuse)
    → f'.throws ≡ false
    → Ready s (bytes_of bs)
    → let t = record s { f = f' } in Ready t (bytes_of bs) × Moved [] s t
refused s bs f' calm v = (
  record { chunk = v.chunk; calm = calm; open_ = v.open_; fits = v.fits; below = v.below },
  record { storage = refl; data_ = sym (append-nil s.data_); kept = λ a h. refl; below = tt },
)

pub accept-Moved :
    (s : WriteStream) (bs : List Buffer)
    → Ready s (bytes_of bs)
    → let n = min (length (bytes_of bs)) s.max_write_size in
      (t : WriteStream) × (accept s bs ≡ (t, none, n))
      × Ready t (bytes_of bs)
      × Moved (take n (bytes_of bs)) s t
unfolding accept matched
accept-Moved s bs v =
    let B = bytes_of bs in
    let n = min (length B) s.max_write_size in
    let (m, kept, eq) = append_data-copy s bs v in
    let t = record s { memory = m; data_ = s.data_ ++ map s.memory (take n B) } in
    (
      t,
      ap (λ a. matched (length s.data_) a.1 (consume_match a.0)) eq
          ∙ ap (matched (length s.data_) n) (consume_match-idle t v.open_),
      record { chunk = v.chunk; calm = v.calm; open_ = v.open_; fits = v.fits; below = v.below },
      record {
        storage = refl;
        data_ = refl;
        kept = kept;
        below = All-take (λ a. a < s.storage) n B v.below;
      },
    )
