-- ===== src/Exec/Queue.antt =====
-- The queue of src/ex/thread_pool.cpp, whose links stand in the continuations. A continuation is a
-- number; `reserved` gives the link that each holds.
pub mod Refine
use capy.Base.{ℕ, Bool, true, false, Option, none, some, ◌==◌, if◌then◌else◌}

pub record Queue : Type 0 where
  pub head_ : Option ℕ
  pub tail_ : Option ℕ
  pub reserved : ℕ → Option ℕ

unfoldable pub link : (ℕ → Option ℕ) → ℕ → Option ℕ → ℕ → Option ℕ
link f a o b = if b == a then o else f b

unfoldable pub push : Queue → ℕ → Queue
unfolding link
push q c =
    let ended = link q.reserved c none in
    elim q.tail_ [
      | none ↦ record { head_ = some c; tail_ = some c; reserved = ended }
      | some t ↦ record { head_ = q.head_; tail_ = some c; reserved = link ended t (some c) }
    ]

unfoldable pub pop : Queue → Queue × Option ℕ
pop q = elim q.head_ [
  | none ↦ (q, none)
  | some c ↦ elim (q.reserved c) [
    | none ↦ (record q { head_ = none; tail_ = none }, some c)
    | some d ↦ (record q { head_ = some d }, some c)
  ]
]

unfoldable pub empty : Queue → Bool
empty q = elim q.head_ [ none ↦ true | some c ↦ false ]
