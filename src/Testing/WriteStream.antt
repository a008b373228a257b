-- ===== src/Testing/WriteStream.antt =====
-- include/boost/capy/test/write_stream.hpp over a memory. `data_` and `expect_` are the strings'
-- bytes; the characters of `data_` stand from the address `storage` on, and those that a resize adds
-- are read back from memory once they are written. The stop token is read once, as `stop`.
pub mod Moved
pub mod Append
pub mod Contract
use capy.Base.{
  ℕ, ◌+◌, Bool, true, false, List, [], ◌∷◌, ◌++◌, map, none, some, min, ◌==◌, ◌&&◌, if◌then◌else◌,
  length, take, drop, size_max,
}
use capy.Error.{Ec, capy_error, Error}
use capy.Buffers.{Buffer, make_buffer, buffer_size, buffer_empty}
use capy.Buffers.Bytes.{range}
use capy.Buffers.Copy.{Memory, buffer_copy, copied_or}
use capy.Testing.Fuse.{Fuse, Outcome, returned, thrown, thrown_other, maybe_fail}

pub record WriteStream : Type 0 where
  pub memory : Memory
  pub f : Fuse
  pub storage : ℕ
  pub data_ : List ℕ
  pub expect_ : List ℕ
  pub max_write_size : ℕ
  pub stop : Bool

abbrev pub same_bytes : List ℕ → List ℕ → Bool
same_bytes [] [] = true
same_bytes [] (y ∷ ys) = false
same_bytes (x ∷ xs) [] = false
same_bytes (x ∷ xs) (y ∷ ys) = (x == y) && same_bytes xs ys

-- `consume_match_`; for an empty string the common length is zero, and nothing changes.
unfoldable pub consume_match : WriteStream → WriteStream × Ec
consume_match s =
    let n = min (length s.data_) (length s.expect_) in
    if same_bytes (take n s.data_) (take n s.expect_)
    then (record s { data_ = drop n s.data_; expect_ = drop n s.expect_ }, none)
    else (s, some (capy_error Error.test_failure))

unfoldable pub expect : WriteStream → List ℕ → WriteStream × Ec
unfolding consume_match
expect s sv = consume_match (record s { expect_ = sv })

-- `await_resume` behind the fuse, up to the match: the copy to the end of the data.
unfoldable pub append_data : WriteStream → List Buffer → WriteStream × ℕ
append_data s bs =
    let n = min (buffer_size bs) s.max_write_size in
    let old_size = length s.data_ in
    let dest = make_buffer (s.storage + old_size) n in
    let (m, k) = copied_or s.memory (buffer_copy s.memory (dest ∷ []) bs n) in
    (record s { memory = m; data_ = s.data_ ++ map m (range (s.storage + old_size) n) }, n)

-- What the match makes of the call: on an error the data is cut back to the old size.
unfoldable pub matched : ℕ → ℕ → WriteStream × Ec → WriteStream × Ec × ℕ
matched old_size n (s, none) = (s, none, n)
matched old_size n (s, some e) = (record s { data_ = take old_size s.data_ }, some e, 0)

unfoldable pub accept : WriteStream → List Buffer → WriteStream × Ec × ℕ
unfolding append_data consume_match matched
accept s bs = let (t, n) = append_data s bs in matched (length s.data_) n (consume_match t)

-- What a call of the fuse leads to.
unfoldable pub after_fuse : WriteStream → List Buffer → Outcome Ec → WriteStream × Outcome (Ec × ℕ)
unfolding accept
after_fuse s bs (returned none) = let (t, ec, n) = accept s bs in (t, returned (ec, n))
after_fuse s bs (returned (some e)) = (s, returned (some e, 0))
after_fuse s bs (thrown e) = (s, thrown e)
after_fuse s bs (thrown_other e) = (s, thrown_other e)

unfoldable pub write_some : WriteStream → List Buffer → WriteStream × Outcome (Ec × ℕ)
unfolding after_fuse
write_some s bs =
    let (f', failed) = maybe_fail s.f 0 in
    if buffer_empty bs
    then (s, returned (none, 0))
    else if s.stop
    then (s, returned (some (capy_error Error.canceled), 0))
    else after_fuse (record s { f = f' }) bs failed
