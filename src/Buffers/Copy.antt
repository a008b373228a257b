-- ===== src/Buffers/Copy.antt =====
-- include/boost/capy/buffers/buffer_copy.hpp over a memory of bytes.
pub mod Disjoint
pub mod Refine
pub mod Contents
use capy.Base.{
  ℕ, zero, suc, ◌+◌, ◌-◌, List, [], ◌∷◌, Option, none, some, ltb, ◌==◌, if◌then◌else◌, length, Bool,
  ◌&&◌,
}
use capy.Buffers.{Buffer, advance}

-- The byte at each address.
abbrev pub Memory : Type 0
Memory = ℕ → ℕ

unfoldable pub store : Memory → ℕ → ℕ → Memory
store m a v q = if q == a then v else m q

-- Whether `n` bytes from `a` on and from `b` on have one in common.
abbrev pub overlap : ℕ → ℕ → ℕ → Bool
overlap n a b = ltb a (b + n) && ltb b (a + n)

unfoldable pub move_bytes : Memory → ℕ → ℕ → ℕ → Memory
move_bytes m dest src zero = m
move_bytes m dest src (suc n) = move_bytes (store m dest (m src)) (suc dest) (suc src) n

-- `std::memcpy(dest, src, n)`, which is undefined, `none`, on objects that overlap.
unfoldable pub memcpy : Memory → ℕ → ℕ → ℕ → Option Memory
unfolding move_bytes
memcpy m dest src n = if overlap n dest src then none else some (move_bytes m dest src n)

-- `amount`: the least of the two sizes and of what `at_most` leaves.
unfoldable pub copy_amount : ℕ → ℕ → ℕ → ℕ
copy_amount n0 n1 left = let n = if ltb n1 n0 then n1 else n0 in if ltb left n then left else n

-- One position in a sequence: the buffers that are left, and the bytes done of the first.
pub record Cursor : Type 0 where
  pub rest : List Buffer
  pub pos : ℕ

-- Past `amount` bytes of the first buffer, of which `size` were left: to the next buffer, or on.
unfoldable pub step_cursor : ℕ → ℕ → ℕ → List Buffer → List Buffer → Cursor
step_cursor amount size pos here next =
    if amount == size
    then record { rest = next; pos = 0 }
    else record { rest = here; pos = pos + amount }

-- The rest of a round, from the memory that the copy has left.
unfoldable pub after_copy : (Memory → Option (Memory × ℕ)) → Option Memory → Option (Memory × ℕ)
after_copy next none = none
after_copy next (some m) = next m

-- The `while` loop, on fuel; `none` means that the fuel ran out, or an undefined copy.
unfoldable pub copy_loop : ℕ → ℕ → ℕ → Cursor → Cursor → Memory → Option (Memory × ℕ)
unfolding after_copy memcpy
copy_loop zero at_most total src dest m = none
copy_loop (suc fuel) at_most total src dest m = elim src.rest [
  | [] ↦ some (m, total)
  | s ∷ ss ↦ elim dest.rest [
    | [] ↦ some (m, total)
    | d ∷ ds ↦
        let b0 = advance s src.pos in
        let b1 = advance d dest.pos in
        let amount = copy_amount b0.size b1.size (at_most - total) in
        let next =
          copy_loop fuel at_most (total + amount) (step_cursor amount b0.size src.pos (s ∷ ss) ss)
            (step_cursor amount b1.size dest.pos (d ∷ ds) ds) in
        let round = after_copy next (memcpy m b1.data_ b0.data_ amount) in
        if ltb total at_most then round else some (m, total)
  ]
]

-- Each round but the last finishes a buffer.
unfoldable pub buffer_copy : Memory → List Buffer → List Buffer → ℕ → Option (Memory × ℕ)
unfolding copy_loop
buffer_copy m dest src at_most =
    copy_loop (length src + length dest + 1) at_most 0 (record { rest = src; pos = 0 })
      (record { rest = dest; pos = 0 }) m

-- The result of a copy that is defined.
abbrev pub copied_or : Memory → Option (Memory × ℕ) → Memory × ℕ
copied_or m none = (m, 0)
copied_or m (some r) = r
