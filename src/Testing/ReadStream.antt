-- ===== src/Testing/ReadStream.antt =====
-- include/boost/capy/test/read_stream.hpp over a memory. The string `data_` is the `size` bytes from
-- the address `storage`; the stop token is read once, as `stop`.
pub mod Moved
pub mod Deliver
pub mod Contract
use capy.Base.{
  ℕ, ◌+◌, ◌-◌, Bool, true, false, List, [], ◌∷◌, Option, none, some, leb, ltb, if◌then◌else◌,
  size_max,
}
use capy.Error.{Ec, capy_error, Error}
use capy.Buffers.{Buffer, make_buffer, buffer_empty}
use capy.Buffers.Copy.{Memory, buffer_copy, copied_or}
use capy.Testing.Fuse.{Fuse, Outcome, returned, thrown, thrown_other, maybe_fail}

pub record ReadStream : Type 0 where
  pub memory : Memory
  pub f : Fuse
  pub storage : ℕ
  pub size : ℕ
  pub pos : ℕ
  pub max_read_size : ℕ
  pub stop : Bool

unfoldable pub available : ReadStream → ℕ
available s = s.size - s.pos

-- `clear()`.
unfoldable pub clear : ReadStream → ReadStream
clear s = record s { size = 0; pos = 0 }

-- `await_resume` behind the fuse: the end of the data, or a copy.
unfoldable pub deliver : ReadStream → List Buffer → ReadStream × Ec × ℕ
deliver s bs =
    let avail = s.size - s.pos in
    let part = if ltb s.max_read_size avail then s.max_read_size else avail in
    let (m, n) =
      copied_or s.memory
        (buffer_copy s.memory bs (make_buffer (s.storage + s.pos) part ∷ []) size_max) in
    if leb s.size s.pos
    then (s, some (capy_error Error.eof), 0)
    else (record s { memory = m; pos = s.pos + n }, none, n)

-- What a call of the fuse leads to.
unfoldable pub after_fuse : ReadStream → List Buffer → Outcome Ec → ReadStream × Outcome (Ec × ℕ)
unfolding deliver
after_fuse s bs (returned none) = let (t, ec, n) = deliver s bs in (t, returned (ec, n))
after_fuse s bs (returned (some e)) = (s, returned (some e, 0))
after_fuse s bs (thrown e) = (s, thrown e)
after_fuse s bs (thrown_other e) = (s, thrown_other e)

unfoldable pub read_some : ReadStream → List Buffer → ReadStream × Outcome (Ec × ℕ)
unfolding after_fuse
read_some s bs =
    let (f', failed) = maybe_fail s.f 0 in
    if buffer_empty bs
    then (s, returned (none, 0))
    else if s.stop
    then (s, returned (some (capy_error Error.canceled), 0))
    else after_fuse (record s { f = f' }) bs failed
