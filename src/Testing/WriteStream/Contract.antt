-- ===== src/Testing/WriteStream/Contract.antt =====
-- `test::write_stream` keeps the contract of a `WriteStream` while nothing is expected of it.
use capy.Base.{
  if◌then◌else◌, ap, ◌∙◌, ℕ, ◌<◌, ◌≡◌, refl, inl, inr, false, true, List, none, some, arith,
  Bool-cases, length, take, min,
}
use capy.Error.{Ec, Error, capy_error, other}
use capy.Buffers.{Buffer, buffer_empty}
use capy.Buffers.Bytes.{bytes_of, buffer_empty-bytes}
use capy.Testing.Fuse.{Fuse, Outcome, returned, thrown, thrown_other, maybe_fail, maybe_fail-Calm}
use capy.Testing.WriteStream.{WriteStream, after_fuse, write_some}
use capy.Transfer.Transport.{Transport, Conforms}
use capy.Testing.WriteStream.Moved.{Moved, Ready, Ready-drop, Moved-none, Moved-append}
use capy.Testing.WriteStream.Append.{refused, accept-Moved}

-- How a call of `write_some` ends.
pub record Writes (s : WriteStream) (bs : List Buffer) : Type 0 where
  pub state : WriteStream
  pub ec : Ec
  pub count : ℕ
  pub returns : write_some s bs ≡ (state, returned (ec, count))
  pub conform : Conforms ec count (length (bytes_of bs))
  pub ready : Ready state (bytes_of bs)
  pub moved : Moved (take count (bytes_of bs)) s state

after_fuse-Writes :
    (s : WriteStream) (bs : List Buffer) (f' : Fuse) (ec : Ec)
    → f'.throws ≡ false
    → 0 < length (bytes_of bs)
    → Ready s (bytes_of bs)
    → write_some s bs ≡ after_fuse (record s { f = f' }) bs (returned ec)
    → Writes s bs
unfolding after_fuse
after_fuse-Writes s bs f' none calm pos v eq =
    let t = record s { f = f' } in
    let (ready, _) = refused s bs f' calm v in
    let a = accept-Moved t bs ready in
    record {
      state = a.0;
      ec = none;
      count = min (length (bytes_of bs)) s.max_write_size;
      returns = eq ∙ ap (λ r. (r.0, returned (r.1, r.2))) a.1;
      conform = (omega (arith, v.chunk), omega arith);
      ready = a.2;
      moved = record {
        storage = a.3.storage;
        data_ = a.3.data_;
        kept = a.3.kept;
        below = a.3.below;
      };
    }
after_fuse-Writes s bs f' (some e) calm pos v eq =
    let r = refused s bs f' calm v in
    record {
      state = record s { f = f' };
      ec = some e;
      count = 0;
      returns = eq;
      conform = pos;
      ready = r.0;
      moved = r.1;
    }

module _ (s : WriteStream) (bs : List Buffer) (filled : buffer_empty bs ≡ false) where
  write_some-stopped :
      s.stop ≡ true → write_some s bs ≡ (s, returned (some (capy_error Error.canceled), 0))
  unfolding write_some
  write_some-stopped h = rw (filled, h) refl

  write_some-fuse :
      s.stop ≡ false
      → write_some s bs ≡ after_fuse (record s { f = (maybe_fail s.f 0).0 }) bs (maybe_fail s.f 0).1
  unfolding write_some
  write_some-fuse go = rw filled (
      ap
        (λ b.
          if b
          then (s, returned (some (capy_error Error.canceled), 0))
          else after_fuse (record s { f = (maybe_fail s.f 0).0 }) bs (maybe_fail s.f 0).1)
        go)

-- Where test::write_stream has a limit per write above 0, expects nothing and has a fuse that is
-- not set to throw, and the buffers hold at least one byte and fewer than 2^64, all at addresses
-- below the stream's storage, write_some returns, and does not throw, and keeps the WriteStream
-- contract: it appends the first count bytes of the buffers to the data, at least one without an
-- error and fewer than all with one, changes no byte below the storage, and the stream is fit for
-- another call.
pub write_some-Writes :
    (s : WriteStream) (bs : List Buffer)
    → Ready s (bytes_of bs)
    → 0 < length (bytes_of bs)
    → Writes s bs
write_some-Writes s bs v pos =
    let filled : buffer_empty bs ≡ false = ground (arith, buffer_empty-bytes bs) in
    elim (Bool-cases s.stop) [
      | inl stop ↦ record {
        state = s;
        ec = some (capy_error Error.canceled);
        count = 0;
        returns = write_some-stopped s bs filled stop;
        conform = pos;
        ready = v;
        moved = Moved-none s;
      }
      | inr go ↦
          let c = maybe_fail-Calm s.f 0 v.calm in
          after_fuse-Writes s bs (maybe_fail s.f 0).0 c.ec c.throws pos v (
            write_some-fuse s bs filled go
            ∙ ap (after_fuse (record s { f = (maybe_fail s.f 0).0 }) bs) c.returns)
    ]

abbrev value : Outcome (Ec × ℕ) → Ec × ℕ
value (returned r) = r
value (thrown e) = (some e, 0)
value (thrown_other e) = (some (other e), 0)

-- The call as the loops of `write` and `write_at_least` see it.
pub write_some_value : WriteStream → List Buffer → WriteStream × Ec × ℕ
write_some_value s bs = let (t, o) = write_some s bs in let (ec, n) = value o in (t, ec, n)

pub write_some_value-Conforms :
    (s : WriteStream) (bs : List Buffer)
    → Ready s (bytes_of bs)
    → 0 < length (bytes_of bs)
    → let r = write_some_value s bs in
      Conforms r.1 r.2 (length (bytes_of bs))
      × Ready r.0 (bytes_of bs)
      × Moved (take r.2 (bytes_of bs)) s r.0
unfolding write_some_value
write_some_value-Conforms s bs v pos =
    let r = write_some-Writes s bs v pos in rw r.returns (r.conform, r.ready, r.moved)

abbrev pub write_stream : Transport WriteStream
write_stream = record {
  some_ = write_some_value;
  Ready = Ready;
  Moved = Moved;
  ready_drop = Ready-drop;
  moved_none = Moved-none;
  moved_append = Moved-append;
  conforms = write_some_value-Conforms;
}
