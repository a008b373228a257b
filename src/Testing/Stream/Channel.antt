-- ===== src/Testing/Stream/Channel.antt =====
-- What goes in at one end comes out at the other.
use capy.Base.{
  ℕ, ◌≡◌, refl, sym, ap, ap₂, subst, ◌∙◌, Bool, true, false, not, List, ◌++◌, map, some, inl, inr,
  if-elim, take, append_assoc,
}
use capy.Error.{Ec}
use capy.Buffers.{Buffer}
use capy.Buffers.Bytes.{bytes_of}
use capy.Testing.Fuse.{Outcome}
use capy.Testing.Stream.{
  Pair, make_stream_pair, set_half, set_reader, close, set_max_read_size, read_suspend, cancel,
  disarm, destroy_reader, write_some, provide,
}
use capy.Testing.Stream.Halves.{ends, set_half_here}
use capy.Testing.Stream.System.{
  System, moved, extend, did_read, Step, parks, refuses, stops, reads, leaves, writes, provides,
  closes, limits, start, Reach, begin, then_,
}
use capy.Testing.Stream.Still.{
  buf_of, Same, Same-refl, set_half-Same, set_reader-Same, wake-Same, Same-trans, unpark-Same,
  disarm-Same,
}
use capy.Testing.Stream.Traffic.{Out, read_resume-Out, write_some-Into, other_buf}

extend_here : (f : Bool → List ℕ) (i : Bool) (xs : List ℕ) → extend f i xs i ≡ f i ++ xs
extend_here f false xs = refl
extend_here f true xs = refl

extend_other : (f : Bool → List ℕ) (i : Bool) (xs : List ℕ) → extend f i xs (not i) ≡ f (not i)
extend_other f false xs = refl
extend_other f true xs = refl

-- For each end: what was sent to it is what its reads have got, and then its string.
abbrev pub Flows : System → Type 0
Flows s = (j : Bool) → s.sent j ≡ s.received j ++ buf_of s.pair j

still-Flows : (s : System) (q : Pair) → Same s.pair q → Flows s → Flows (record s { pair = q })
still-Flows s q k v j = v j ∙ ap (λ l. s.received j ++ l) (sym (k.buf j))

read-Flows :
    (s : System) (i : Bool) (bs : List Buffer) (r : Pair × Outcome (Ec × ℕ))
    → Out s.pair i bs r
    → Flows s
    → Flows (did_read s i bs r)
read-Flows s i bs (q, o) out v j =
    let xs = map q.memory (take (moved o) (bytes_of bs)) in
    let P : Bool → Type 0 = λ k. s.sent k ≡ extend s.received i xs k ++ buf_of q k in
    elim (ends i j) [
      | inl e ↦ subst P (sym e) (
          v i
          ∙ ap (λ l. s.received i ++ l) (sym out.here)
          ∙ sym (append_assoc (s.received i) xs (buf_of q i))
          ∙ ap (λ l. l ++ buf_of q i) (sym (extend_here s.received i xs)))
      | inr e ↦
          subst P (sym e)
            (v (not i) ∙ ap₂ ◌++◌ (sym (extend_other s.received i xs)) (sym out.there))
    ]

kept_sent : (f : Bool → List ℕ) (i : Bool) (xs : List ℕ) → extend f (not i) xs i ≡ f i
kept_sent f false xs = refl
kept_sent f true xs = refl

grow-Flows :
    (s : System) (i : Bool) (q : Pair) (xs : List ℕ)
    → buf_of q (not i) ≡ buf_of s.pair (not i) ++ xs
    → buf_of q i ≡ buf_of s.pair i
    → Flows s
    → Flows (record s { pair = q; sent = extend s.sent (not i) xs })
grow-Flows s i q xs here there v j =
    let P : Bool → Type 0 = λ k. extend s.sent (not i) xs k ≡ s.received k ++ buf_of q k in
    elim (ends i j) [
      | inl e ↦
          subst P (sym e) (kept_sent s.sent i xs ∙ v i ∙ ap (λ l. s.received i ++ l) (sym there))
      | inr e ↦ subst P (sym e) (
          extend_here s.sent (not i) xs
          ∙ ap (λ l. l ++ xs) (v (not i))
          ∙ append_assoc (s.received (not i)) (buf_of s.pair (not i)) xs
          ∙ ap (λ l. s.received (not i) ++ l) (sym here))
    ]

park-Same : (p : Pair) (i : Bool) (w : ℕ) → Same p (read_suspend p i w false).0
unfolding read_suspend
park-Same p i w =
    let q = set_half p i (record (p.sides i) { pending = some w }) in
    Same-trans p q _ (set_half-Same p i _ refl refl) (set_reader-Same q w _)

refuse-Same : (p : Pair) (i : Bool) (w : ℕ) → Same p (read_suspend p i w true).0
unfolding read_suspend
refuse-Same p i w = set_reader-Same p w _

cancel-Same : (p : Pair) (w : ℕ) → Same p (cancel p w)
unfolding cancel set_reader
cancel-Same p w =
    if-elim (Same p) (p.reader w).claimed p _ (λ _. Same-refl p)
      (λ _. record { buf = λ j. refl; storage = λ j. refl; memory = refl })

leave-Same : (p : Pair) (w : ℕ) → Same p (destroy_reader p w)
unfolding destroy_reader
leave-Same p w =
    Same-trans p (disarm p w) _ (disarm-Same p w) (unpark-Same (disarm p w) w (p.reader w).side_)

close-Same : (p : Pair) (i : Bool) → Same p (close p i)
unfolding close
close-Same p i =
    let q = set_half p (not i) (record (p.sides (not i)) { eof = true }) in
    Same-trans p q _ (set_half-Same p (not i) _ refl refl) (wake-Same q (not i))

limit-Same : (p : Pair) (i : Bool) (n : ℕ) → Same p (set_max_read_size p i n)
unfolding set_max_read_size
limit-Same p i n = set_half-Same p i _ refl refl

provide_here :
    (p : Pair) (i : Bool) (sv : List ℕ) → buf_of (provide p i sv) (not i) ≡ buf_of p (not i) ++ sv
unfolding provide
provide_here p i sv =
    let h = record (p.sides (not i)) { buf = (p.sides (not i)).buf ++ sv } in
    (wake-Same (set_half p (not i) h) (not i)).buf (not i)
    ∙ ap (λ g. g.buf) (set_half_here p (not i) h)

provide_there : (p : Pair) (i : Bool) (sv : List ℕ) → buf_of (provide p i sv) i ≡ buf_of p i
unfolding provide
provide_there p i sv =
    let h = record (p.sides (not i)) { buf = (p.sides (not i)).buf ++ sv } in
    (wake-Same (set_half p (not i) h) (not i)).buf i ∙ other_buf p i h

Step-Flows : {s t : System} → Step s t → Flows s → Flows t
Step-Flows {s} (parks i w bs fresh free ready) v = still-Flows s _ (park-Same s.pair i w) v
Step-Flows {s} (refuses i w fresh) v = still-Flows s _ (refuse-Same s.pair i w) v
Step-Flows {s} (stops w on) v = still-Flows s _ (cancel-Same s.pair w) v
Step-Flows {s} (reads i w bs apt) v = read-Flows s i bs _ (read_resume-Out s.pair i w bs apt) v
Step-Flows {s} (leaves w) v = still-Flows s _ (leave-Same s.pair w) v
Step-Flows {s} (writes i bs stop apt) v =
    let o = write_some-Into s.pair i bs stop apt in
    grow-Flows s i (write_some s.pair i bs stop).0 _ o.here o.there v
Step-Flows {s} (provides i sv) v =
    grow-Flows s i (provide s.pair i sv) sv (provide_here s.pair i sv) (provide_there s.pair i sv) v
Step-Flows {s} (closes i) v = still-Flows s _ (close-Same s.pair i) v
Step-Flows {s} (limits i n) v = still-Flows s _ (limit-Same s.pair i n) v

-- Whatever the users of a stream pair do on its two ends, in any order, with buffers of a read that
-- neither overlap each other nor the string, and buffers of a write that fit a size_t and do not
-- lie where the string grows: the bytes sent to an end are the bytes that its reads have put into
-- their buffers, followed by those in its string, in order.
pub Reach-Flows :
    {s : System} → Reach s → (j : Bool) → s.sent j ≡ s.received j ++ (s.pair.sides j).buf
unfolding start make_stream_pair
Reach-Flows (begin m f p0 p1) j = refl
Reach-Flows (then_ reach step) j = Step-Flows step (Reach-Flows reach) j
