-- ===== src/Testing/Stream/Resumed.antt =====
-- What each call on an end leaves.
use capy.Base.{
  ℕ, ◌+◌, ◌≡◌, refl, sym, ap, subst, ◌∙◌, Bool, true, false, not, List, [], ◌∷◌, Option, none, some,
  inl, inr, ◌==◌, ◌||◌, ◌&&◌, if◌then◌else◌, if-elim, arith, drop, drop-nil, length,
}
use capy.Error.{Ec, capy_error, Error}
use capy.Buffers.{Buffer, make_buffer, buffer_empty, buffer_size}
use capy.Buffers.Copy.{Memory, buffer_copy, copied_or}
use capy.Testing.Fuse.{Fuse, Outcome, returned, thrown, thrown_other, maybe_fail}
use capy.Testing.Stream.{
  new_reader, Pair, make_stream_pair, set_half, set_reader, close, set_max_read_size, read_ready,
  read_suspend, is_pending, unpark, disarm, destroy_reader, load, deliver, read_fused, read_open,
  read_resume, put, write_fused, write_some, provide, is_nil,
}
use capy.Testing.Stream.Halves.{ends, set_half_here, set_half_other, reader-cases}
use capy.Testing.Stream.Awake.{
  Quiet, Attentive, close_pair-Attentive, data-wake, data-Attentive, disarm-Attentive,
  refuse-Attentive, cancel-Attentive, unpend-Attentive,
}
use capy.Testing.Stream.System.{
  System, Step, parks, refuses, stops, reads, leaves, writes, provides, closes, limits, start,
  Reach, begin, then_,
}
use capy.Sync.Counts.{flag, times, is_it}

or-false : (a b : Bool) → (a || b) ≡ false → (a ≡ false) × (b ≡ false)
or-false false b h = (refl, h)
or-false true b h = cc h

is_nil_lem : (xs : List ℕ) → not (is_nil xs) ≡ false → xs ≡ []
is_nil_lem [] h = refl
is_nil_lem (x ∷ xs) h = cc h

is_pending_lem : (w : ℕ) (o : Option ℕ) → is_pending w o ≡ true → o ≡ some w
is_pending_lem w none h = cc h
is_pending_lem w (some v) h = ap some (ground (arith, h))

read_ready-Quiet : (p : Pair) (i : Bool) (bs : List Buffer) → read_ready p i bs ≡ false → Quiet p i
unfolding read_ready
read_ready-Quiet p i bs h =
    let (closed, rest) = or-false p.closed _ (or-false (buffer_empty bs) _ h).1 in
    let (eof, buf) = or-false (p.sides i).eof _ rest in
    (is_nil_lem (p.sides i).buf buf, eof, closed)

-- A new reader takes the place that is free on a side with nothing to read.
park-Attentive :
    (p : Pair) (i : Bool) (w : ℕ)
    → Attentive p
    → p.reader w ≡ new_reader
    → (p.sides i).pending ≡ none
    → Quiet p i
    → Attentive (read_suspend p i w false).0
unfolding read_suspend set_half set_reader
park-Attentive p i w v fresh free quiet =
    let h = record (p.sides i) { pending = some w } in
    let r = record (p.reader w) { active = true; side_ = some i } in
    let q = set_half p i h in
    let here = set_half_here p i h in
    let there = set_half_other p i h in
    record {
      tidy = record {
        once = λ u.
            reader-cases q w r u (λ x n. times u p.posted ≡ flag x.claimed)
              (λ eq. v.tidy.once u ∙ ap (λ y. flag (p.reader y).claimed) eq) (λ _. v.tidy.once u);
        found = λ u.
            reader-cases q w r u
              (λ x n.
                x.active ≡ true → x.claimed ≡ false → (j : Bool) × ((q.sides j).pending ≡ some u))
              (λ eq _ _. (i, ap (λ g. g.pending) here ∙ ap some (sym eq)))
              (λ _ on un.
                let (j, e) = v.tidy.found u on un in
                elim (ends i j) [
                  | inl eq ↦ cc (free, ap (λ x. (p.sides x).pending) (sym eq) ∙ e)
                  | inr eq ↦ (
                    not i,
                    ap (λ g. g.pending) there ∙ ap (λ x. (p.sides x).pending) (sym eq) ∙ e,
                  )
                ]);
      };
      quiet = λ j u e un. elim (ends i j) [
        | inl eq ↦
            let (buf, eof, closed) = quiet in
            subst (Quiet (read_suspend p i w false).0) (sym eq)
              (ap (λ g. g.buf) here ∙ buf, ap (λ g. g.eof) here ∙ eof, closed)
        | inr eq ↦
            let was : (p.sides (not i)).pending ≡ some u =
              ap (λ g. g.pending) (sym there) ∙ ap (λ x. (q.sides x).pending) (sym eq) ∙ e in
            let (buf, eof, closed) = v.quiet (not i) u was (
              reader-cases q w r u (λ x n. x.claimed ≡ false → (p.reader u).claimed ≡ false)
                (λ eq2 k. ap (λ y. (p.reader y).claimed) eq2 ∙ k) (λ _ k. k) un) in
            subst (Quiet (read_suspend p i w false).0) (sym eq)
              (ap (λ g. g.buf) there ∙ buf, ap (λ g. g.eof) there ∙ eof, closed)
      ];
    }

unpark-Attentive :
    (p : Pair) (w : ℕ) (o : Option Bool)
    → Attentive p
    → (p.reader w).active ≡ false
    → Attentive (unpark p w o)
unfolding unpark
unpark-Attentive p w none v off = v
unpark-Attentive p w (some i) v off =
    if-elim Attentive (is_pending w (p.sides i).pending)
      (set_half p i (record (p.sides i) { pending = none })) p
      (λ e. unpend-Attentive p w v i off (is_pending_lem w _ e)) (λ _. v)

disarmed : (p : Pair) (w : ℕ) → ((disarm p w).reader w).active ≡ false
unfolding disarm set_reader
disarmed p w =
    ap (λ c. (if c then record (p.reader w) { active = false } else p.reader w).active)
      (is_it w w refl)

leave-Attentive : (p : Pair) (w : ℕ) → Attentive p → Attentive (destroy_reader p w)
unfolding destroy_reader
leave-Attentive p w v =
    unpark-Attentive (disarm p w) w (p.reader w).side_ (disarm-Attentive p w v) (disarmed p w)

memory-Attentive : (p : Pair) (m : Memory) → Attentive p → Attentive (record p { memory = m })
memory-Attentive p m v = record {
  tidy = record { once = v.tidy.once; found = v.tidy.found };
  quiet = v.quiet;
}

fuse-Attentive : (p : Pair) (f : Fuse) → Attentive p → Attentive (record p { f = f })
fuse-Attentive p f v = record {
  tidy = record { once = v.tidy.once; found = v.tidy.found };
  quiet = v.quiet;
}

deliver-Attentive :
    (p : Pair) (i : Bool) (bs : List Buffer) → Attentive p → Attentive (deliver p i bs).0
unfolding deliver
deliver-Attentive p i bs v =
    let h = p.sides i in
    let m0 = load p.memory h.storage h.buf in
    let (m, n) =
      copied_or m0
        (buffer_copy m0 bs (make_buffer h.storage (length h.buf) ∷ []) h.max_read_size) in
    data-Attentive (record p { memory = m }) i (record h { buf = drop n h.buf }) refl
      (λ e. ap (drop n) e ∙ drop-nil n) refl (memory-Attentive p m v)

read_fused-Attentive :
    (p : Pair) (i : Bool) (bs : List Buffer) (o : Outcome Ec)
    → Attentive p
    → Attentive (read_fused p i bs o).0
unfolding read_fused
read_fused-Attentive p i bs (returned none) v = deliver-Attentive p i bs v
read_fused-Attentive p i bs (returned (some e)) v = close_pair-Attentive p v.tidy
read_fused-Attentive p i bs (thrown e) v = close_pair-Attentive p v.tidy
read_fused-Attentive p i bs (thrown_other e) v = close_pair-Attentive p v.tidy

read_open-Attentive :
    (p : Pair) (i : Bool) (bs : List Buffer) → Attentive p → Attentive (read_open p i bs).0
unfolding read_open
read_open-Attentive p i bs v =
    let h = p.sides i in
    let (f', failed) = maybe_fail p.f 0 in
    let late = if h.eof then deliver p i bs else read_fused (record p { f = f' }) i bs failed in
    if-elim (λ r. Attentive r.0) (p.closed || (h.eof && is_nil h.buf))
      (p, returned (some (capy_error Error.eof), 0)) late (λ _. v)
      (λ _.
        if-elim (λ r. Attentive r.0) h.eof (deliver p i bs)
          (read_fused (record p { f = f' }) i bs failed) (λ _. deliver-Attentive p i bs v)
          (λ _. read_fused-Attentive (record p { f = f' }) i bs failed (fuse-Attentive p f' v)))

read_resume-Attentive :
    (p : Pair) (i : Bool) (w : ℕ) (bs : List Buffer)
    → Attentive p
    → Attentive (read_resume p i w bs).0
unfolding read_resume
read_resume-Attentive p i w bs v =
    let q = disarm p w in
    let vq = disarm-Attentive p w v in
    let gone : Pair × Outcome (Ec × ℕ) =
      (unpark q w (p.reader w).side_, returned (some (capy_error Error.canceled), 0)) in
    if-elim (λ r. Attentive r.0) (buffer_empty bs) (q, returned (none, 0))
      (if (p.reader w).canceled then gone else read_open q i bs) (λ _. vq)
      (λ _.
        if-elim (λ r. Attentive r.0) (p.reader w).canceled gone (read_open q i bs)
          (λ _. unpark-Attentive q w (p.reader w).side_ vq (disarmed p w))
          (λ _. read_open-Attentive q i bs vq))

put-Attentive : (p : Pair) (i : Bool) (bs : List Buffer) → Attentive p → Attentive (put p i bs).0
unfolding put
put-Attentive p i bs v =
    let n = buffer_size bs in
    let h = p.sides (not i) in
    let end_ = h.storage + length h.buf in
    let (m, k) = copied_or p.memory (buffer_copy p.memory (make_buffer end_ n ∷ []) bs n) in
    data-wake (record p { memory = m }) (not i) _ refl (memory-Attentive p m v)

write_fused-Attentive :
    (p : Pair) (i : Bool) (bs : List Buffer) (o : Outcome Ec)
    → Attentive p
    → Attentive (write_fused p i bs o).0
unfolding write_fused
write_fused-Attentive p i bs (returned none) v = put-Attentive p i bs v
write_fused-Attentive p i bs (returned (some e)) v = close_pair-Attentive p v.tidy
write_fused-Attentive p i bs (thrown e) v = close_pair-Attentive p v.tidy
write_fused-Attentive p i bs (thrown_other e) v = close_pair-Attentive p v.tidy

write_some-Attentive :
    (p : Pair) (i : Bool) (bs : List Buffer) (stop : Bool)
    → Attentive p
    → Attentive (write_some p i bs stop).0
unfolding write_some
write_some-Attentive p i bs stop v =
    let (f', failed) = maybe_fail p.f 0 in
    let late = write_fused (record p { f = f' }) i bs failed in
    let over : Pair × Outcome (Ec × ℕ) = (p, returned (some (capy_error Error.eof), 0)) in
    let gone : Pair × Outcome (Ec × ℕ) = (p, returned (some (capy_error Error.canceled), 0)) in
    if-elim (λ r. Attentive r.0) (buffer_size bs == 0) (p, returned (none, 0))
      (if stop then gone else if p.closed then over else late) (λ _. v)
      (λ _.
        if-elim (λ r. Attentive r.0) stop gone (if p.closed then over else late) (λ _. v)
          (λ _.
            if-elim (λ r. Attentive r.0) p.closed over late (λ _. v)
              (λ _.
                write_fused-Attentive (record p { f = f' }) i bs failed (fuse-Attentive p f' v))))

provide-Attentive : (p : Pair) (i : Bool) (sv : List ℕ) → Attentive p → Attentive (provide p i sv)
unfolding provide
provide-Attentive p i sv v = data-wake p (not i) _ refl v

close-Attentive : (p : Pair) (i : Bool) → Attentive p → Attentive (close p i)
unfolding close
close-Attentive p i v = data-wake p (not i) _ refl v

limit-Attentive : (p : Pair) (i : Bool) (n : ℕ) → Attentive p → Attentive (set_max_read_size p i n)
unfolding set_max_read_size
limit-Attentive p i n v = data-Attentive p i _ refl (λ e. e) refl v

start-Attentive : (m : Memory) (f : Fuse) (p0 p1 : ℕ) → Attentive (make_stream_pair m f p0 p1)
unfolding make_stream_pair
start-Attentive m f p0 p1 = record {
  tidy = record { once = λ v. refl; found = λ v h. cc h };
  quiet = λ i w e. cc e;
}

Step-Attentive : {s t : System} → Step s t → Attentive s.pair → Attentive t.pair
Step-Attentive {s} (parks i w bs fresh free ready) v =
    park-Attentive s.pair i w v fresh free (read_ready-Quiet s.pair i bs ready)
Step-Attentive {s} (refuses i w fresh) v = refuse-Attentive s.pair w v i
Step-Attentive {s} (stops w on) v = cancel-Attentive s.pair w v
Step-Attentive {s} (reads i w bs apt) v = read_resume-Attentive s.pair i w bs v
Step-Attentive {s} (leaves w) v = leave-Attentive s.pair w v
Step-Attentive {s} (writes i bs stop apt) v = write_some-Attentive s.pair i bs stop v
Step-Attentive {s} (provides i sv) v = provide-Attentive s.pair i sv v
Step-Attentive {s} (closes i) v = close-Attentive s.pair i v
Step-Attentive {s} (limits i n) v = limit-Attentive s.pair i n v

-- Whatever the users of a stream pair do on its two ends, in any order, with at most one read
-- parked on an end: a reader is posted once when it is claimed, and never otherwise; one with a
-- stop callback that nobody has claimed is parked; and the end on which an unclaimed reader is
-- parked has no data and no end of stream, and the pair is open, so that no wake-up is lost.
pub Reach-Attentive : {s : System} → Reach s → Attentive s.pair
unfolding start
Reach-Attentive (begin m f p0 p1) = start-Attentive m f p0 p1
Reach-Attentive (then_ reach step) = Step-Attentive step (Reach-Attentive reach)
