-- ===== src/Testing/Stream.antt =====
-- include/boost/capy/test/stream.hpp: a pair of connected ends, `false` and `true`, over a memory. A
-- string is the list of its bytes, which stand from the address `storage` on while a buffer refers to
-- them. An awaitable of `read_some` is a number; the stop token is read once, as `stop`.
pub mod Halves
pub mod Wakes
pub mod System
pub mod Awake
pub mod Resumed
pub mod Copies
pub mod Still
pub mod Traffic
pub mod Channel
pub mod Broken
use capy.Base.{
  ℕ, zero, suc, ◌+◌, Bool, true, false, not, List, [], ◌∷◌, ◌++◌, map, Option, none, some, ◌==◌,
  ◌&&◌, ◌||◌, if◌then◌else◌, length, drop, size_max,
}
use capy.Error.{Ec, ErrorCode, capy_error, Error}
use capy.Buffers.{Buffer, make_buffer, buffer_size, buffer_empty}
use capy.Buffers.Bytes.{range}
use capy.Buffers.Copy.{Memory, store, buffer_copy, copied_or}
use capy.Testing.Fuse.{Fuse, Outcome, returned, thrown, thrown_other, maybe_fail}

-- `stream::half`; the three members on the suspended reader are set and reset together.
pub record Half : Type 0 where
  pub storage : ℕ
  pub buf : List ℕ
  pub max_read_size : ℕ
  pub pending : Option ℕ
  pub eof : Bool

-- The members of the awaitable; `side_` is the end that it was parked on.
pub record Reader : Type 0 where
  pub claimed : Bool
  pub canceled : Bool
  pub active : Bool
  pub side_ : Option Bool

abbrev pub new_reader : Reader
new_reader = record { claimed = false; canceled = false; active = false; side_ = none }

-- `stream::state`, with the continuations posted to executors, in order.
pub record Pair : Type 0 where
  pub memory : Memory
  pub f : Fuse
  pub closed : Bool
  pub sides : Bool → Half
  pub reader : ℕ → Reader
  pub posted : List ℕ

abbrev pub same_end : Bool → Bool → Bool
same_end false j = not j
same_end true j = j

unfoldable pub set_half : Pair → Bool → Half → Pair
set_half p i h = record p { sides = λ j. if same_end i j then h else p.sides j }

unfoldable pub set_reader : Pair → ℕ → Reader → Pair
set_reader p w r = record p { reader = λ v. if v == w then r else p.reader v }

unfoldable pub make_stream_pair : Memory → Fuse → ℕ → ℕ → Pair
make_stream_pair m f storage0 storage1 = record {
  memory = m;
  f = f;
  closed = false;
  sides = λ i. record {
    storage = if i then storage1 else storage0;
    buf = [];
    max_read_size = size_max;
    pending = none;
    eof = false;
  };
  reader = λ _. new_reader;
  posted = [];
}

-- `state::wake` of a side whose suspended reader, if any, is known.
unfoldable pub woken : Pair → Bool → Option ℕ → Pair
unfolding set_half set_reader
woken p i none = p
woken p i (some w) =
    let q = set_half p i (record (p.sides i) { pending = none }) in
    if (p.reader w).claimed
    then q
    else record (set_reader q w (record (p.reader w) { claimed = true })) {
      posted = p.posted ++ w ∷ [];
    }

unfoldable pub wake : Pair → Bool → Pair
unfolding woken
wake p i = woken p i (p.sides i).pending

-- `state::close`.
unfoldable pub close_pair : Pair → Pair
unfolding wake
close_pair p = wake (wake (record p { closed = true }) false) true

-- `stream::close` of the end `i`.
unfoldable pub close : Pair → Bool → Pair
unfolding set_half wake
close p i = wake (set_half p (not i) (record (p.sides (not i)) { eof = true })) (not i)

unfoldable pub set_max_read_size : Pair → Bool → ℕ → Pair
unfolding set_half
set_max_read_size p i n = set_half p i (record (p.sides i) { max_read_size = n })

abbrev pub is_nil : List ℕ → Bool
is_nil [] = true
is_nil (x ∷ xs) = false

-- `await_ready` of a read.
unfoldable pub read_ready : Pair → Bool → List Buffer → Bool
read_ready p i bs =
    buffer_empty bs || (p.closed || ((p.sides i).eof || not (is_nil (p.sides i).buf)))

-- `await_suspend` of a read; the result says whether the coroutine stays suspended.
unfoldable pub read_suspend : Pair → Bool → ℕ → Bool → Pair × Bool
unfolding set_half set_reader
read_suspend p i w stop =
    if stop then (set_reader p w (record (p.reader w) { canceled = true }), false) else (
      set_reader (set_half p i (record (p.sides i) { pending = some w })) w
          (record (p.reader w) { active = true; side_ = some i }),
      true,
    )

-- `cancel_fn`: the stop callback.
unfoldable pub cancel : Pair → ℕ → Pair
unfolding set_reader
cancel p w =
    if (p.reader w).claimed
    then p
    else record (set_reader p w (record (p.reader w) { claimed = true; canceled = true })) {
      posted = p.posted ++ w ∷ [];
    }

abbrev pub is_pending : ℕ → Option ℕ → Bool
is_pending w none = false
is_pending w (some v) = w == v

-- The awaitable leaves the side that it was parked on, if it still stands there.
unfoldable pub unpark : Pair → ℕ → Option Bool → Pair
unfolding set_half
unpark p w none = p
unpark p w (some i) =
    if is_pending w (p.sides i).pending
    then set_half p i (record (p.sides i) { pending = none })
    else p

unfoldable pub disarm : Pair → ℕ → Pair
unfolding set_reader
disarm p w = set_reader p w (record (p.reader w) { active = false })

-- `~awaitable` of a read.
unfoldable pub destroy_reader : Pair → ℕ → Pair
unfolding unpark disarm
destroy_reader p w = unpark (disarm p w) w (p.reader w).side_

-- The string's bytes in memory.
unfoldable pub load : Memory → ℕ → List ℕ → Memory
load m a [] = m
load m a (b ∷ bs) = load (store m a b) (suc a) bs

-- `await_resume` behind the fuse: the copy.
unfoldable pub deliver : Pair → Bool → List Buffer → Pair × Outcome (Ec × ℕ)
unfolding set_half load
deliver p i bs =
    let h = p.sides i in
    let m0 = load p.memory h.storage h.buf in
    let (m, n) =
      copied_or m0
        (buffer_copy m0 bs (make_buffer h.storage (length h.buf) ∷ []) h.max_read_size) in
    (set_half (record p { memory = m }) i (record h { buf = drop n h.buf }), returned (none, n))

-- What a call of the fuse leads to; on an error `close_guard` closes the pair.
unfoldable pub read_fused : Pair → Bool → List Buffer → Outcome Ec → Pair × Outcome (Ec × ℕ)
unfolding deliver close_pair
read_fused p i bs (returned none) = deliver p i bs
read_fused p i bs (returned (some e)) = (close_pair p, returned (some e, 0))
read_fused p i bs (thrown e) = (close_pair p, thrown e)
read_fused p i bs (thrown_other e) = (close_pair p, thrown_other e)

-- `await_resume` of a read that was not canceled, on buffers that are not empty.
unfoldable pub read_open : Pair → Bool → List Buffer → Pair × Outcome (Ec × ℕ)
unfolding deliver read_fused
read_open p i bs =
    let h = p.sides i in
    let (f', failed) = maybe_fail p.f 0 in
    if p.closed || (h.eof && is_nil h.buf)
    then (p, returned (some (capy_error Error.eof), 0))
    else if h.eof
    then deliver p i bs
    else read_fused (record p { f = f' }) i bs failed

-- `await_resume` of a read.
unfoldable pub read_resume : Pair → Bool → ℕ → List Buffer → Pair × Outcome (Ec × ℕ)
unfolding disarm unpark read_open
read_resume p i w bs =
    let q = disarm p w in
    if buffer_empty bs
    then (q, returned (none, 0))
    else if (p.reader w).canceled
    then (unpark q w (p.reader w).side_, returned (some (capy_error Error.canceled), 0))
    else read_open q i bs

-- `await_resume` of a write behind the fuse: the copy to the end of the peer's string.
unfoldable pub put : Pair → Bool → List Buffer → Pair × Outcome (Ec × ℕ)
unfolding set_half wake
put p i bs =
    let n = buffer_size bs in
    let h = p.sides (not i) in
    let end_ = h.storage + length h.buf in
    let (m, k) = copied_or p.memory (buffer_copy p.memory (make_buffer end_ n ∷ []) bs n) in
    (
      wake
          (set_half (record p { memory = m }) (not i)
            (record h { buf = h.buf ++ map m (range end_ n) }))
          (not i),
      returned (none, n),
    )

unfoldable pub write_fused : Pair → Bool → List Buffer → Outcome Ec → Pair × Outcome (Ec × ℕ)
unfolding put close_pair
write_fused p i bs (returned none) = put p i bs
write_fused p i bs (returned (some e)) = (close_pair p, returned (some e, 0))
write_fused p i bs (thrown e) = (close_pair p, thrown e)
write_fused p i bs (thrown_other e) = (close_pair p, thrown_other e)

unfoldable pub write_some : Pair → Bool → List Buffer → Bool → Pair × Outcome (Ec × ℕ)
unfolding write_fused
write_some p i bs stop =
    let (f', failed) = maybe_fail p.f 0 in
    if buffer_size bs == 0
    then (p, returned (none, 0))
    else if stop
    then (p, returned (some (capy_error Error.canceled), 0))
    else if p.closed
    then (p, returned (some (capy_error Error.eof), 0))
    else write_fused (record p { f = f' }) i bs failed

unfoldable pub provide : Pair → Bool → List ℕ → Pair
unfolding set_half wake
provide p i sv =
    let h = p.sides (not i) in wake (set_half p (not i) (record h { buf = h.buf ++ sv })) (not i)

-- `data`: what the end `i` has still to read.
unfoldable pub unread : Pair → Bool → List ℕ
unread p i = (p.sides i).buf
