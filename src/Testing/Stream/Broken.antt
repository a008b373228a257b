-- ===== src/Testing/Stream/Broken.antt =====
-- An error that the fuse injects at either end.
use capy.Base.{
  ℕ, ◌≡◌, refl, sym, ap, subst, ◌∙◌, Bool, true, false, not, List, none, some, ◌==◌, ◌||◌, ◌&&◌,
  if◌then◌else◌, if-elim,
}
use capy.Error.{Ec, capy_error, Error}
use capy.Buffers.{Buffer, buffer_empty, buffer_size}
use capy.Testing.Fuse.{Outcome, returned, thrown, thrown_other, maybe_fail}
use capy.Testing.Stream.{
  Pair, wake, close_pair, read_ready, read_fused, read_open, write_fused, write_some, is_nil,
  deliver,
}
use capy.Testing.Stream.Wakes.{wake-Woken}

abbrev pub injects : Outcome Ec → Bool
injects (returned none) = false
injects (returned (some e)) = true
injects (thrown e) = true
injects (thrown_other e) = true

-- What the caller gets of it.
abbrev pub passed_on : Outcome Ec → Outcome (Ec × ℕ)
passed_on (returned e) = returned (e, 0)
passed_on (thrown e) = thrown e
passed_on (thrown_other e) = thrown_other e

abbrev pub at_end : Outcome (Ec × ℕ)
at_end = returned (some (capy_error Error.eof), 0)

-- The pair is closed and nobody is parked on it; no read waits, and reads and writes of any bytes are
-- at the end.
pub record Broken (q : Pair) : Type 0 where
  pub closed : q.closed ≡ true
  pub nobody : (j : Bool) → (q.sides j).pending ≡ none
  pub ready : (j : Bool) (bs : List Buffer) → read_ready q j bs ≡ true
  pub reads : (j : Bool) (bs : List Buffer) → read_open q j bs ≡ (q, at_end)
  pub writes :
      (j : Bool) (bs : List Buffer)
      → write_some q j bs false ≡ (q, if buffer_size bs == 0 then returned (none, 0) else at_end)

or_true : (b : Bool) → (b || true) ≡ true
or_true false = refl
or_true true = refl

or-closed : (a b : Bool) → (a || b) ≡ false → a ≡ false
or-closed false b h = refl
or-closed true b h = cc h

nobody_left :
    (q : Pair)
    → (q.sides false).pending ≡ none
    → (q.sides true).pending ≡ none
    → (j : Bool) → (q.sides j).pending ≡ none
nobody_left q h k false = h
nobody_left q h k true = k

closed-Broken : (q : Pair) → q.closed ≡ true → ((j : Bool) → (q.sides j).pending ≡ none) → Broken q
unfolding read_ready read_open write_some
closed-Broken q h k = record {
  closed = h;
  nobody = k;
  ready = λ j bs.
      ap (λ c. buffer_empty bs || (c || ((q.sides j).eof || not (is_nil (q.sides j).buf)))) h
      ∙ or_true (buffer_empty bs);
  reads = λ j bs.
      if-elim (λ r. r ≡ (q, at_end)) (q.closed || ((q.sides j).eof && is_nil (q.sides j).buf))
        (q, at_end) _ (λ _. refl) (λ e. cc (or-closed q.closed _ e, h));
  writes = λ j bs.
      elim (buffer_size bs == 0)
        as (λ c.
          (if c
            then (q, returned (none, 0))
            else if q.closed
            then (q, at_end)
            else write_fused (record q { f = (maybe_fail q.f 0).0 }) j bs (maybe_fail q.f 0).1)
          ≡ (q, if c then returned (none, 0) else at_end)) [
            | true ↦ refl
            | false ↦
                if-elim (λ r. r ≡ (q, at_end)) q.closed (q, at_end) _ (λ _. refl) (λ e. cc (e, h))
          ];
}

close_pair-Broken : (p : Pair) → Broken (close_pair p)
unfolding close_pair
close_pair-Broken p =
    let q = record p { closed = true } in
    let a = wake-Woken q false in
    let b = wake-Woken (wake q false) true in
    closed-Broken (wake (wake q false) true) (b.closed ∙ a.closed)
      (nobody_left (wake (wake q false) true) (ap (λ h. h.pending) b.other ∙ a.unparked) b.unparked)

read_fused-Broken :
    (p : Pair) (i : Bool) (bs : List Buffer) (o : Outcome Ec)
    → injects o ≡ true
    → Broken (read_fused p i bs o).0 × ((read_fused p i bs o).1 ≡ passed_on o)
unfolding read_fused
read_fused-Broken p i bs (returned none) h = cc h
read_fused-Broken p i bs (returned (some e)) h = (close_pair-Broken p, refl)
read_fused-Broken p i bs (thrown e) h = (close_pair-Broken p, refl)
read_fused-Broken p i bs (thrown_other e) h = (close_pair-Broken p, refl)

write_fused-Broken :
    (p : Pair) (i : Bool) (bs : List Buffer) (o : Outcome Ec)
    → injects o ≡ true
    → Broken (write_fused p i bs o).0 × ((write_fused p i bs o).1 ≡ passed_on o)
unfolding write_fused
write_fused-Broken p i bs (returned none) h = cc h
write_fused-Broken p i bs (returned (some e)) h = (close_pair-Broken p, refl)
write_fused-Broken p i bs (thrown e) h = (close_pair-Broken p, refl)
write_fused-Broken p i bs (thrown_other e) h = (close_pair-Broken p, refl)

-- The calls on an open pair that call its fuse, with what they come to: a read that was not canceled
-- on an end without end of stream, and a write of some bytes that is not stopped on any end.
pub data Fused (p : Pair) : Pair × Outcome (Ec × ℕ) → Type 0 where
  reading : (i : Bool) (bs : List Buffer) → (p.sides i).eof ≡ false → Fused p (read_open p i bs)
  writing :
      (i : Bool) (bs : List Buffer)
      → (buffer_size bs == 0) ≡ false
      → Fused p (write_some p i bs false)

abbrev Breaks : Pair → Pair × Outcome (Ec × ℕ) → Type 0
Breaks p r = Broken r.0 × (r.1 ≡ passed_on (maybe_fail p.f 0).1)

-- On a pair that is not closed, a call of the fuse that injects an error code or throws, made by
-- the await_resume of a read that was not canceled on an end without end of stream, or by a write
-- of some bytes that is not stopped on any end, closes the pair, leaves no reader parked, and
-- passes the error on; after it await_ready of every read is true, and every such read, and every
-- write of some bytes that is not stopped, reports eof and changes nothing.
pub injected-Broken :
    (p : Pair) (r : Pair × Outcome (Ec × ℕ))
    → injects (maybe_fail p.f 0).1 ≡ true
    → p.closed ≡ false
    → Fused p r
    → Broken r.0 × (r.1 ≡ passed_on (maybe_fail p.f 0).1)
unfolding read_open write_some
injected-Broken p _ hit open_ (reading i bs more) =
    let (f', o) = maybe_fail p.f 0 in
    let q = record p { f = f' } in
    let step : read_open p i bs ≡ read_fused q i bs o =
      ap
        (λ c.
          if c || ((p.sides i).eof && is_nil (p.sides i).buf)
          then (p, at_end)
          else if (p.sides i).eof
          then deliver p i bs
          else read_fused q i bs o)
        open_
      ∙ ap
          (λ c.
            if c && is_nil (p.sides i).buf
            then (p, at_end)
            else if c
            then deliver p i bs
            else read_fused q i bs o)
          more in
    subst (Breaks p) (sym step) (read_fused-Broken q i bs o hit)
injected-Broken p _ hit open_ (writing i bs some_) =
    let (f', o) = maybe_fail p.f 0 in
    let q = record p { f = f' } in
    let step : write_some p i bs false ≡ write_fused q i bs o =
      ap
        (λ c.
          if c
          then (p, returned (none, 0))
          else if p.closed
          then (p, at_end)
          else write_fused q i bs o)
        some_
      ∙ ap (λ c. if c then (p, at_end) else write_fused q i bs o) open_ in
    subst (Breaks p) (sym step) (write_fused-Broken q i bs o hit)
