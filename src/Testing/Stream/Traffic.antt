-- ===== src/Testing/Stream/Traffic.antt =====
-- The bytes that a read and a write move.
use capy.Base.{
  ℕ, ◌+◌, ◌≡◌, refl, sym, ap, ◌∙◌, Bool, true, false, not, List, [], ◌∷◌, ◌++◌, map, none, some,
  ◌==◌, ◌||◌, ◌&&◌, if◌then◌else◌, if-elim, arith, length, take, drop, append-nil, take-append-drop,
  take-of_ge,
}
use capy.Error.{Ec, capy_error, Error}
use capy.Buffers.{Buffer, make_buffer, buffer_empty, buffer_size}
use capy.Buffers.Bytes.{bytes_of, range}
use capy.Buffers.Copy.{buffer_copy, copied_or}
use capy.Testing.Fuse.{Fuse, Outcome, returned, thrown, thrown_other, maybe_fail}
use capy.Testing.Stream.{
  Half, Pair, set_half, set_reader, close_pair, unpark, disarm, load, deliver, read_fused,
  read_open, read_resume, put, write_fused, write_some, is_nil,
}
use capy.Testing.Stream.Halves.{set_half_here, set_half_other}
use capy.Testing.Stream.Copies.{taken_lem, grown_lem}
use capy.Testing.Stream.System.{moved, Receives, Sends}
use capy.Testing.Stream.Still.{
  buf_of, Same, Same-refl, Same-trans, wake-Same, close_pair-Same, unpark-Same, disarm-Same,
}

-- What a read moves out of its string, and a write into the peer's.
pub record Out (p : Pair) (i : Bool) (bs : List Buffer) (r : Pair × Outcome (Ec × ℕ)) : Type 0 where
  pub here : map (r.0).memory (take (moved r.1) (bytes_of bs)) ++ buf_of r.0 i ≡ buf_of p i
  pub there : buf_of r.0 (not i) ≡ buf_of p (not i)

pub record Into (p : Pair) (i : Bool) (bs : List Buffer) (r : Pair × Outcome (Ec × ℕ))
    : Type 0 where
  pub here : buf_of r.0 (not i) ≡ buf_of p (not i) ++ map p.memory (take (moved r.1) (bytes_of bs))
  pub there : buf_of r.0 i ≡ buf_of p i

idle-Out :
    (p q : Pair) (i : Bool) (bs : List Buffer) (o : Outcome (Ec × ℕ))
    → moved o ≡ 0
    → Same p q
    → Out p i bs (q, o)
idle-Out p q i bs o h s = record {
  here = ap (λ n. map q.memory (take n (bytes_of bs)) ++ buf_of q i) h ∙ s.buf i;
  there = s.buf (not i);
}

idle-Into :
    (p q : Pair) (i : Bool) (bs : List Buffer) (o : Outcome (Ec × ℕ))
    → moved o ≡ 0
    → Same p q
    → Into p i bs (q, o)
idle-Into p q i bs o h s = record {
  here =
      s.buf (not i)
      ∙ sym (append-nil (buf_of p (not i)))
      ∙ ap (λ n. buf_of p (not i) ++ map p.memory (take n (bytes_of bs))) (sym h);
  there = s.buf i;
}

deliver-Out :
    (p : Pair) (i : Bool) (bs : List Buffer) → Receives p i bs → Out p i bs (deliver p i bs)
unfolding deliver
deliver-Out p i bs a =
    let h = p.sides i in
    let m0 = load p.memory h.storage h.buf in
    let (m, n) =
      copied_or m0
        (buffer_copy m0 bs (make_buffer h.storage (length h.buf) ∷ []) h.max_read_size) in
    let t = taken_lem p.memory h bs a.distinct a.apart in
    let q = record p { memory = m } in
    let h' = record h { buf = drop n h.buf } in
    record {
      here =
          ap (λ l. l ++ buf_of (set_half q i h') i) t.front
          ∙ ap (λ g. take n h.buf ++ g.buf) (set_half_here q i h')
          ∙ take-append-drop n h.buf;
      there = ap (λ g. g.buf) (set_half_other q i h');
    }

-- The fuse and the readers have no bytes.
fuse-Out :
    (p : Pair) (f : Fuse) (i : Bool) (bs : List Buffer) (r : Pair × Outcome (Ec × ℕ))
    → Out (record p { f = f }) i bs r
    → Out p i bs r
fuse-Out p f i bs r o = record { here = o.here; there = o.there }

read_fused-Out :
    (p : Pair) (i : Bool) (bs : List Buffer) (o : Outcome Ec)
    → Receives p i bs
    → Out p i bs (read_fused p i bs o)
unfolding read_fused
read_fused-Out p i bs (returned none) a = deliver-Out p i bs a
read_fused-Out p i bs (returned (some e)) a =
    idle-Out p (close_pair p) i bs _ refl (close_pair-Same p)
read_fused-Out p i bs (thrown e) a = idle-Out p (close_pair p) i bs _ refl (close_pair-Same p)
read_fused-Out p i bs (thrown_other e) a = idle-Out p (close_pair p) i bs _ refl (close_pair-Same p)

read_open-Out :
    (p : Pair) (i : Bool) (bs : List Buffer) → Receives p i bs → Out p i bs (read_open p i bs)
unfolding read_open
read_open-Out p i bs a =
    let h = p.sides i in
    let (f', failed) = maybe_fail p.f 0 in
    let fused = read_fused (record p { f = f' }) i bs failed in
    if-elim (Out p i bs) (p.closed || (h.eof && is_nil h.buf))
      (p, returned (some (capy_error Error.eof), 0)) (if h.eof then deliver p i bs else fused)
      (λ _. idle-Out p p i bs _ refl (Same-refl p))
      (λ _.
        if-elim (Out p i bs) h.eof (deliver p i bs) fused (λ _. deliver-Out p i bs a)
          (λ _. fuse-Out p f' i bs fused (
            read_fused-Out (record p { f = f' }) i bs failed
              record { distinct = a.distinct; apart = a.apart })))

disarm-Out :
    (p : Pair) (w : ℕ) (i : Bool) (bs : List Buffer) (r : Pair × Outcome (Ec × ℕ))
    → Out (disarm p w) i bs r
    → Out p i bs r
unfolding disarm set_reader
disarm-Out p w i bs r o = record { here = o.here; there = o.there }

disarm-Receives :
    (p : Pair) (w : ℕ) (i : Bool) (bs : List Buffer) → Receives p i bs → Receives (disarm p w) i bs
unfolding disarm set_reader
disarm-Receives p w i bs a = record { distinct = a.distinct; apart = a.apart }

pub read_resume-Out :
    (p : Pair) (i : Bool) (w : ℕ) (bs : List Buffer)
    → Receives p i bs
    → Out p i bs (read_resume p i w bs)
unfolding read_resume
read_resume-Out p i w bs a =
    let q = disarm p w in
    let gone : Pair × Outcome (Ec × ℕ) =
      (unpark q w (p.reader w).side_, returned (some (capy_error Error.canceled), 0)) in
    if-elim (Out p i bs) (buffer_empty bs) (q, returned (none, 0))
      (if (p.reader w).canceled then gone else read_open q i bs)
      (λ _. idle-Out p q i bs _ refl (disarm-Same p w))
      (λ _.
        if-elim (Out p i bs) (p.reader w).canceled gone (read_open q i bs)
          (λ _.
            idle-Out p (unpark q w (p.reader w).side_) i bs _ refl
              (Same-trans p q _ (disarm-Same p w) (unpark-Same q w _)))
          (λ _. disarm-Out p w i bs _ (read_open-Out q i bs (disarm-Receives p w i bs a))))

pub other_buf : (p : Pair) (i : Bool) (h : Half) → buf_of (set_half p (not i) h) i ≡ buf_of p i
unfolding set_half
other_buf p false h = refl
other_buf p true h = refl

put-Into : (p : Pair) (i : Bool) (bs : List Buffer) → Sends p i bs → Into p i bs (put p i bs)
unfolding put
put-Into p i bs a =
    let n = buffer_size bs in
    let h = p.sides (not i) in
    let end_ = h.storage + length h.buf in
    let (m, k) = copied_or p.memory (buffer_copy p.memory (make_buffer end_ n ∷ []) bs n) in
    let (size, got) = grown_lem p.memory end_ bs a.fits a.apart in
    let q = record p { memory = m } in
    let h' = record h { buf = h.buf ++ map m (range end_ n) } in
    let s = wake-Same (set_half q (not i) h') (not i) in
    let all : take n (bytes_of bs) ≡ bytes_of bs =
      ap (λ c. take c (bytes_of bs)) size ∙ take-of_ge _ (bytes_of bs) (omega arith) in
    record {
      here =
          s.buf (not i)
          ∙ ap (λ g. g.buf) (set_half_here q (not i) h')
          ∙ ap (λ l. h.buf ++ l) (got ∙ ap (map p.memory) (sym all));
      there = s.buf i ∙ other_buf q i h';
    }

fuse-Into :
    (p : Pair) (f : Fuse) (i : Bool) (bs : List Buffer) (r : Pair × Outcome (Ec × ℕ))
    → Into (record p { f = f }) i bs r
    → Into p i bs r
fuse-Into p f i bs r o = record { here = o.here; there = o.there }

write_fused-Into :
    (p : Pair) (i : Bool) (bs : List Buffer) (o : Outcome Ec)
    → Sends p i bs
    → Into p i bs (write_fused p i bs o)
unfolding write_fused
write_fused-Into p i bs (returned none) a = put-Into p i bs a
write_fused-Into p i bs (returned (some e)) a =
    idle-Into p (close_pair p) i bs _ refl (close_pair-Same p)
write_fused-Into p i bs (thrown e) a = idle-Into p (close_pair p) i bs _ refl (close_pair-Same p)
write_fused-Into p i bs (thrown_other e) a =
    idle-Into p (close_pair p) i bs _ refl (close_pair-Same p)

pub write_some-Into :
    (p : Pair) (i : Bool) (bs : List Buffer) (stop : Bool)
    → Sends p i bs
    → Into p i bs (write_some p i bs stop)
unfolding write_some
write_some-Into p i bs stop a =
    let (f', failed) = maybe_fail p.f 0 in
    let late = write_fused (record p { f = f' }) i bs failed in
    let over : Pair × Outcome (Ec × ℕ) = (p, returned (some (capy_error Error.eof), 0)) in
    let gone : Pair × Outcome (Ec × ℕ) = (p, returned (some (capy_error Error.canceled), 0)) in
    let same = λ (o : Outcome (Ec × ℕ)) (h : moved o ≡ 0). idle-Into p p i bs o h (Same-refl p) in
    if-elim (Into p i bs) (buffer_size bs == 0) (p, returned (none, 0))
      (if stop then gone else if p.closed then over else late) (λ _. same _ refl)
      (λ _.
        if-elim (Into p i bs) stop gone (if p.closed then over else late) (λ _. same _ refl)
          (λ _.
            if-elim (Into p i bs) p.closed over late (λ _. same _ refl)
              (λ _. fuse-Into p f' i bs late (
                write_fused-Into (record p { f = f' }) i bs failed
                  record { fits = a.fits; apart = a.apart }))))
