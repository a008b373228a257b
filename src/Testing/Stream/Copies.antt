-- ===== src/Testing/Stream/Copies.antt =====
-- The two copies: from a string into the buffers of a read, and from those of a write to a string.
use capy.Base.{
  ℕ, suc, ◌<◌, ◌≡◌, refl, sym, ap, ap₂, subst, ◌∙◌, true, false, List, [], ◌∷◌, map, ◌==◌,
  if◌then◌else◌, arith, length, take, size_mod, Distinct, append-nil, take-of_ge, take-map,
}
use capy.Buffers.{Buffer, make_buffer, buffer_size}
use capy.Buffers.Bytes.{bytes_of, range, length-range, take-range, buffer_size-bytes}
use capy.Buffers.Copy.{Memory, store, buffer_copy, copied_or}
use capy.Buffers.Copy.Contents.{copied, buffer_copy-contents}
use capy.Buffers.Copy.Disjoint.{Apart}
use capy.Testing.WriteStream.Moved.{Distinct-range}
use capy.Testing.Stream.{Half, load}

load_before : (m : Memory) (a q : ℕ) (bs : List ℕ) → q < a → load m a bs q ≡ m q
unfolding load store
load_before m a q [] h = refl
load_before m a q (b ∷ bs) h =
    let off : (q == a) ≡ false = ground (arith, h) in
    load_before (store m a b) (suc a) q bs (omega (arith, h)) ∙ ap (λ c. if c then b else m q) off

pub load-range : (m : Memory) (a : ℕ) (bs : List ℕ) → map (load m a bs) (range a (length bs)) ≡ bs
unfolding load store
load-range m a [] = refl
load-range m a (b ∷ bs) =
    let self : (a == a) ≡ true = ground arith in
    ap₂ ◌∷◌
      (load_before (store m a b) (suc a) a bs (omega arith) ∙ ap (λ c. if c then b else m a) self)
      (load-range (store m a b) (suc a) bs)

-- A copy out of a string: the first bytes go into the buffers.
pub record Taken (h : Half) (bs : List Buffer) (r : Memory × ℕ) : Type 0 where
  pub front : map r.0 (take r.1 (bytes_of bs)) ≡ take r.1 h.buf

pub taken_lem :
    (m : Memory) (h : Half) (bs : List Buffer)
    → Distinct (bytes_of bs)
    → Apart (bytes_of bs) (range h.storage (length h.buf))
    → let m0 = load m h.storage h.buf in
      Taken h bs (
        copied_or m0
          (buffer_copy m0 bs (make_buffer h.storage (length h.buf) ∷ []) h.max_read_size))
taken_lem m h bs once apart =
    let m0 = load m h.storage h.buf in
    let src = make_buffer h.storage (length h.buf) ∷ [] in
    let whole : bytes_of src ≡ range h.storage (length h.buf) =
      append-nil (range h.storage (length h.buf)) in
    let n = copied bs src h.max_read_size in
    let r =
      buffer_copy-contents m0 bs src h.max_read_size once
        (subst (Apart (bytes_of bs)) (sym whole) apart) in
    rw r.1 (record {
      front =
          r.2
          ∙ sym (take-map m0 n (bytes_of src))
          ∙ ap (take n) (ap (map m0) whole ∙ load-range m h.storage h.buf);
    })

-- A copy to the end of a string: it grows by all bytes of the buffers.
pub grown_lem :
    (m : Memory) (p : ℕ) (bs : List Buffer)
    → length (bytes_of bs) < size_mod
    → Apart (range p (length (bytes_of bs))) (bytes_of bs)
    → let n = buffer_size bs in
      (n ≡ length (bytes_of bs))
      × (map (copied_or m (buffer_copy m (make_buffer p n ∷ []) bs n)).0 (range p n)
          ≡ map m (bytes_of bs))
grown_lem m p bs fits apart =
    let B = bytes_of bs in
    let size = buffer_size-bytes bs fits in
    let dest = make_buffer p (length B) ∷ [] in
    let e : bytes_of dest ≡ range p (length B) = append-nil (range p (length B)) in
    let r =
      buffer_copy-contents m dest bs (length B)
        (subst Distinct (sym e) (Distinct-range p (length B)))
        (subst (λ l. Apart l B) (sym e) apart) in
    let c : copied dest bs (length B) ≡ length B =
      omega (arith, ap length e, length-range p (length B)) in
    let all : take (copied dest bs (length B)) (bytes_of dest) ≡ range p (length B) =
      ap₂ take c e ∙ take-range (length B) p (length B) (omega arith) in
    let from : take (copied dest bs (length B)) B ≡ B =
      ap (λ k. take k B) c ∙ take-of_ge (length B) B (omega arith) in
    (size, rw (size, r.1) (ap (map r.0) (sym all) ∙ r.2 ∙ ap (map m) from))
