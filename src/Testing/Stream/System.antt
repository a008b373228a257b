-- ===== src/Testing/Stream/System.antt =====
-- The users of both ends, as a step relation; the resumption of a read may come at any time, which
-- allows more than the code. The ghost state holds, for each end, the bytes sent to it and those that
-- its reads have put into their buffers.
use capy.Base.{
  ℕ, ◌+◌, ◌<◌, ◌≡◌, Bool, true, false, not, List, [], ◌++◌, map, none, if◌then◌else◌, length, take,
  size_mod, Distinct,
}
use capy.Error.{Ec}
use capy.Buffers.{Buffer}
use capy.Buffers.Bytes.{bytes_of, range}
use capy.Buffers.Copy.{Memory}
use capy.Buffers.Copy.Disjoint.{Apart}
use capy.Testing.Fuse.{Fuse, Outcome, returned, thrown, thrown_other}
use capy.Testing.Stream.{
  Pair, new_reader, same_end, make_stream_pair, close, set_max_read_size, read_ready, read_suspend,
  cancel, destroy_reader, read_resume, write_some, provide,
}

pub record System : Type 0 where
  pub pair : Pair
  pub sent : Bool → List ℕ
  pub received : Bool → List ℕ

-- The bytes that a call has moved.
abbrev pub moved : Outcome (Ec × ℕ) → ℕ
moved (returned (ec, n)) = n
moved (thrown e) = 0
moved (thrown_other e) = 0

abbrev pub extend : (Bool → List ℕ) → Bool → List ℕ → Bool → List ℕ
extend f i xs j = if same_end i j then f j ++ xs else f j

abbrev pub did_read : System → Bool → List Buffer → Pair × Outcome (Ec × ℕ) → System
did_read s i bs (q, o) = record s {
  pair = q;
  received = extend s.received i (map q.memory (take (moved o) (bytes_of bs)));
}

abbrev pub did_write : System → Bool → List Buffer → Pair × Outcome (Ec × ℕ) → System
did_write s i bs (q, o) = record s {
  pair = q;
  sent = extend s.sent (not i) (map s.pair.memory (take (moved o) (bytes_of bs)));
}

-- No byte stands twice in the buffers of a read, and none belongs to the string.
pub record Receives (p : Pair) (i : Bool) (bs : List Buffer) : Type 0 where
  pub distinct : Distinct (bytes_of bs)
  pub apart : Apart (bytes_of bs) (range (p.sides i).storage (length (p.sides i).buf))

-- The bytes of a write fit a `size_t`, and none lies where the peer's string grows.
pub record Sends (p : Pair) (i : Bool) (bs : List Buffer) : Type 0 where
  pub fits : length (bytes_of bs) < size_mod
  pub apart :
      Apart
        (range ((p.sides (not i)).storage + length (p.sides (not i)).buf) (length (bytes_of bs)))
        (bytes_of bs)

pub data Step (s : System) : System → Type 0 where
  parks :
      (i : Bool) (w : ℕ) (bs : List Buffer)
      → s.pair.reader w ≡ new_reader
      → (s.pair.sides i).pending ≡ none
      → read_ready s.pair i bs ≡ false
      → Step s (record s { pair = (read_suspend s.pair i w false).0 })
  refuses :
      (i : Bool) (w : ℕ)
      → s.pair.reader w ≡ new_reader
      → Step s (record s { pair = (read_suspend s.pair i w true).0 })
  stops : (w : ℕ) → (s.pair.reader w).active ≡ true → Step s (record s { pair = cancel s.pair w })
  reads :
      (i : Bool) (w : ℕ) (bs : List Buffer)
      → Receives s.pair i bs
      → Step s (did_read s i bs (read_resume s.pair i w bs))
  leaves : (w : ℕ) → Step s (record s { pair = destroy_reader s.pair w })
  writes :
      (i : Bool) (bs : List Buffer) (stop : Bool)
      → Sends s.pair i bs
      → Step s (did_write s i bs (write_some s.pair i bs stop))
  provides :
      (i : Bool) (sv : List ℕ)
      → Step s (record s { pair = provide s.pair i sv; sent = extend s.sent (not i) sv })
  closes : (i : Bool) → Step s (record s { pair = close s.pair i })
  limits : (i : Bool) (n : ℕ) → Step s (record s { pair = set_max_read_size s.pair i n })

unfoldable pub start : Memory → Fuse → ℕ → ℕ → System
start m f p0 p1 = record { pair = make_stream_pair m f p0 p1; sent = λ _. []; received = λ _. [] }

pub data Reach : System → Type 0 where
  begin : (m : Memory) (f : Fuse) (p0 p1 : ℕ) → Reach (start m f p0 p1)
  then_ : {s t : System} → Reach s → Step s t → Reach t
