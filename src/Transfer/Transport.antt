-- ===== src/Transfer/Transport.antt =====
-- The contract of `read_some` and `write_some` (include/boost/capy/concept/read_stream.hpp and
-- write_stream.hpp) as an interface: what a stream promises to the loops above it.
use capy.Base.{Distinct, ℕ, ◌≤◌, ◌<◌, List, [], ◌++◌, none, some, take, drop, length}
use capy.Error.{Ec}
use capy.Buffers.{Buffer}
use capy.Buffers.Bytes.{bytes_of}

-- How many of `size` bytes, at least one, a call reports to have moved.
abbrev pub Conforms : Ec → ℕ → ℕ → Type 0
Conforms none n size = (1 ≤ n) × (n ≤ size)
Conforms (some _) n size = n < size

-- `Ready s xs`: in state `s` the stream may be given buffers over the bytes `xs`.
-- `Moved xs s t`: between `s` and `t` just the bytes `xs` have moved, in order.
pub record Transport (S : Type 0) : Type 1 where
  pub some_ : S → List Buffer → S × Ec × ℕ
  pub Ready : S → List ℕ → Type 0
  pub Moved : List ℕ → S → S → Type 0
  pub ready_drop : (n : ℕ) (s : S) (xs : List ℕ) → Ready s xs → Ready s (drop n xs)
  pub moved_none : (s : S) → Moved [] s s
  pub moved_append :
      (xs ys : List ℕ) (s t u : S)
      → Distinct (xs ++ ys)
      → Moved xs s t
      → Moved ys t u
      → Moved (xs ++ ys) s u
  pub conforms :
      (s : S) (bs : List Buffer)
      → Ready s (bytes_of bs)
      → 0 < length (bytes_of bs)
      → let r = some_ s bs in
        Conforms r.1 r.2 (length (bytes_of bs))
        × Ready r.0 (bytes_of bs)
        × Moved (take r.2 (bytes_of bs)) s r.0
