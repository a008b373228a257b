-- ===== src/Frames/Recycling/System.antt =====
-- The threads that use the resource, as a step relation. The ghost state says how many bytes the
-- user of a block has asked for, and how many the block has.
use capy.Base.{ℕ, ◌≤◌, ◌^◌, ◌≡◌, true, false, Option, none, some, ◌==◌, leb, if◌then◌else◌}
use capy.Frames.Recycling.{
  Resource, empty_bucket, num_classes, round_up_pow2, allocate_fast, deallocate_fast, drain,
}
use capy.Frames.Recycling.Classes.{class_of}
use capy.Frames.Recycling.Caches.{Away}

pub record System : Type 0 where
  pub resource : Resource
  pub live : ℕ → Option ℕ
  pub room : ℕ → ℕ

abbrev pub update {ℓ} : {A : Type ℓ} → (ℕ → A) → ℕ → A → ℕ → A
update f q a x = if x == q then a else f x

-- What `allocate_fast` asks `::operator new` for.
abbrev pub new_size : ℕ → ℕ
new_size bytes = if leb num_classes (class_of bytes) then bytes else round_up_pow2 bytes

-- `allocate_fast` on thread `t`, where `::operator new` would return `p`.
unfoldable pub allocate : System → ℕ → ℕ → ℕ → System × ℕ
allocate s t bytes p =
    let (r, q) = allocate_fast s.resource t bytes p in
    (
      record {
        resource = r;
        live = update s.live q (some bytes);
        room = update s.room p (new_size bytes);
      },
      q,
    )

unfoldable pub deallocate : System → ℕ → ℕ → ℕ → System
deallocate s t bytes p = record s {
  resource = deallocate_fast s.resource t bytes p;
  live = update s.live p none;
}

unfoldable pub exit : System → ℕ → System
unfolding drain
exit s t = record s { resource = drain s.resource t }

-- `::operator new` returns a block that is neither cached nor in use; a user gives back what it has
-- got, with the size it asked for; a thread may go on after its cleanup at exit has run.
pub data Step (s : System) : System → Type 0 where
  allocates :
      (t bytes p : ℕ)
      → bytes ≤ 2 ^ 63
      → Away p s.resource
      → s.live p ≡ none
      → Step s (allocate s t bytes p).0
  deallocates : (t bytes p : ℕ) → s.live p ≡ some bytes → Step s (deallocate s t bytes p)
  exits : (t : ℕ) → s.resource.janitor t ≡ true → Step s (exit s t)

unfoldable pub start : System
start = record {
  resource = record {
    bucket = λ _ _. empty_bucket;
    pool_drained = λ _. false;
    janitor = λ _. false;
    thread_armed = λ _. false;
  };
  live = λ _. none;
  room = λ _. 0;
}

pub data Reach : System → Type 0 where
  begin : Reach start
  then_ : {s t : System} → Reach s → Step s t → Reach t
