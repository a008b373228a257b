-- ===== src/Testing/ReadStream/Contract.antt =====
-- `test::read_stream` keeps the contract of a `ReadStream`.
use capy.Base.{
  if◌then◌else◌, ap, ◌∙◌, ℕ, ◌<◌, ◌≡◌, refl, inl, inr, false, List, none, some, arith, Bool-cases,
  length, take,
}
use capy.Error.{Ec, ErrorCode, Error, capy_error, other}
use capy.Buffers.{Buffer, buffer_empty}
use capy.Buffers.Bytes.{bytes_of, buffer_empty-bytes}
use capy.Testing.Fuse.{Fuse, Outcome, returned, thrown, thrown_other, maybe_fail, maybe_fail-Calm}
use capy.Testing.ReadStream.{ReadStream, deliver, after_fuse, read_some}
use capy.Transfer.Transport.{Transport, Conforms}
use capy.Testing.ReadStream.Moved.{Moved, Moved-none, Moved-append, Ready, Ready-drop, Delivered}
use capy.Testing.ReadStream.Deliver.{deliver-Delivered}

-- How a call of `read_some` ends.
pub record Reads (s : ReadStream) (bs : List Buffer) : Type 0 where
  pub state : ReadStream
  pub ec : Ec
  pub count : ℕ
  pub returns : read_some s bs ≡ (state, returned (ec, count))
  pub delivered : Delivered s (bytes_of bs) (state, ec, count)

-- Only the fuse has changed, and the call reports an error.
refused :
    (s : ReadStream) (bs : List Buffer) (f' : Fuse) (e : ErrorCode)
    → 0 < length (bytes_of bs)
    → f'.throws ≡ false
    → Ready s (bytes_of bs)
    → Delivered s (bytes_of bs) (record s { f = f' }, some e, 0)
refused s bs f' e pos calm v = record {
  conform = pos;
  ready = record {
    chunk = v.chunk;
    calm = calm;
    inside = v.inside;
    distinct = v.distinct;
    fits = v.fits;
    apart = v.apart;
  };
  moved = record { filled = refl; rest = refl; outside = λ a h. refl };
}

after_fuse-Delivered :
    (s : ReadStream) (bs : List Buffer) (f' : Fuse) (ec : Ec)
    → 0 < length (bytes_of bs)
    → f'.throws ≡ false
    → Ready s (bytes_of bs)
    → (r : ReadStream × Ec × ℕ) × (after_fuse (record s { f = f' }) bs (returned ec)
        ≡ (r.0, returned (r.1, r.2)))
      × Delivered s (bytes_of bs) r
unfolding after_fuse
after_fuse-Delivered s bs f' none pos calm v =
    let t = record s { f = f' } in
    let w : Ready t (bytes_of bs) = record {
      chunk = v.chunk;
      calm = calm;
      inside = v.inside;
      distinct = v.distinct;
      fits = v.fits;
      apart = v.apart;
    } in
    let d = deliver-Delivered t bs pos w in
    (
      deliver t bs,
      refl,
      record {
        conform = d.conform;
        ready = d.ready;
        moved = record { filled = d.moved.filled; rest = d.moved.rest; outside = d.moved.outside };
      },
    )
after_fuse-Delivered s bs f' (some e) pos calm v =
    ((record s { f = f' }, some e, 0), refl, refused s bs f' e pos calm v)

read_some-fuse :
    (s : ReadStream) (bs : List Buffer)
    → buffer_empty bs ≡ false
    → s.stop ≡ false
    → read_some s bs ≡ after_fuse (record s { f = (maybe_fail s.f 0).0 }) bs (maybe_fail s.f 0).1
unfolding read_some
read_some-fuse s bs filled go = rw filled (
    ap
      (λ b.
        if b
        then (s, returned (some (capy_error Error.canceled), 0))
        else after_fuse (record s { f = (maybe_fail s.f 0).0 }) bs (maybe_fail s.f 0).1)
      go)

-- Where test::read_stream has a limit per read above 0, a position within its data and a fuse that
-- is not set to throw, and the buffers hold at least one byte, fewer than 2^64, none twice and none
-- of the data, read_some returns, and does not throw, and keeps the ReadStream contract: count is
-- between 1 and the size of the buffers without an error and below it with one, the first count
-- bytes of the buffers are the next of the data and the rest follows, no other byte of memory
-- changes, and the stream is fit for another call.
pub read_some-Reads :
    (s : ReadStream) (bs : List Buffer)
    → Ready s (bytes_of bs)
    → 0 < length (bytes_of bs)
    → Reads s bs
unfolding read_some
read_some-Reads s bs v pos =
    let filled : buffer_empty bs ≡ false = ground (arith, buffer_empty-bytes bs) in
    elim (Bool-cases s.stop) [
      | inl stop ↦ record {
        state = s;
        ec = some (capy_error Error.canceled);
        count = 0;
        returns = rw (filled, stop) refl;
        delivered = refused s bs s.f (capy_error Error.canceled) pos v.calm v;
      }
      | inr go ↦
          let c = maybe_fail-Calm s.f 0 v.calm in
          let d = after_fuse-Delivered s bs (maybe_fail s.f 0).0 c.ec pos c.throws v in
          record {
            state = d.0.0;
            ec = d.0.1;
            count = d.0.2;
            returns =
                read_some-fuse s bs filled go
                ∙ ap (after_fuse (record s { f = (maybe_fail s.f 0).0 }) bs) c.returns
                ∙ d.1;
            delivered = d.2;
          }
    ]

abbrev value : Outcome (Ec × ℕ) → Ec × ℕ
value (returned r) = r
value (thrown e) = (some e, 0)
value (thrown_other e) = (some (other e), 0)

-- The call as the loops of `read` and `read_at_least` see it.
pub read_some_value : ReadStream → List Buffer → ReadStream × Ec × ℕ
read_some_value s bs = let (t, o) = read_some s bs in let (ec, n) = value o in (t, ec, n)

pub read_some_value-Conforms :
    (s : ReadStream) (bs : List Buffer)
    → Ready s (bytes_of bs)
    → 0 < length (bytes_of bs)
    → let r = read_some_value s bs in
      Conforms r.1 r.2 (length (bytes_of bs))
      × Ready r.0 (bytes_of bs)
      × Moved (take r.2 (bytes_of bs)) s r.0
unfolding read_some_value
read_some_value-Conforms s bs v pos =
    let r = read_some-Reads s bs v pos in
    rw r.returns (r.delivered.conform, r.delivered.ready, r.delivered.moved)

abbrev pub read_stream : Transport ReadStream
read_stream = record {
  some_ = read_some_value;
  Ready = Ready;
  Moved = Moved;
  ready_drop = Ready-drop;
  moved_none = Moved-none;
  moved_append = Moved-append;
  conforms = read_some_value-Conforms;
}
