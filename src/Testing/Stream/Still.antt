-- ===== src/Testing/Stream/Still.antt =====
-- The calls that leave the strings as they are.
use capy.Base.{ℕ, ◌≡◌, refl, ◌∙◌, Bool, true, false, List, Option, none, some, if-elim}
use capy.Testing.Stream.{
  Half, Reader, Pair, set_half, set_reader, wake, close_pair, is_pending, unpark, disarm,
}
use capy.Testing.Stream.Wakes.{wake-Woken}

abbrev pub buf_of : Pair → Bool → List ℕ
buf_of p j = (p.sides j).buf

-- The strings stay as they are, and so does the memory.
pub record Same (p q : Pair) : Type 0 where
  pub buf : (j : Bool) → buf_of q j ≡ buf_of p j
  pub storage : (j : Bool) → (q.sides j).storage ≡ (p.sides j).storage
  pub memory : q.memory ≡ p.memory

pub Same-refl : (p : Pair) → Same p p
Same-refl p = record { buf = λ j. refl; storage = λ j. refl; memory = refl }

pub Same-trans : (p q r : Pair) → Same p q → Same q r → Same p r
Same-trans p q r a b = record {
  buf = λ j. b.buf j ∙ a.buf j;
  storage = λ j. b.storage j ∙ a.storage j;
  memory = b.memory ∙ a.memory;
}

pub half_field {ℓ} :
    {A : Type ℓ} (g : Half → A) (p : Pair) (i : Bool) (h : Half) (j : Bool)
    → g h ≡ g (p.sides i)
    → g ((set_half p i h).sides j) ≡ g (p.sides j)
unfolding set_half
half_field g p false h false e = e
half_field g p false h true e = refl
half_field g p true h false e = refl
half_field g p true h true e = e

pub set_half-Same :
    (p : Pair) (i : Bool) (h : Half)
    → h.buf ≡ (p.sides i).buf
    → h.storage ≡ (p.sides i).storage
    → Same p (set_half p i h)
unfolding set_half
set_half-Same p i h e k = record {
  buf = λ j. half_field (λ g. g.buf) p i h j e;
  storage = λ j. half_field (λ g. g.storage) p i h j k;
  memory = refl;
}

pub set_reader-Same : (p : Pair) (w : ℕ) (r : Reader) → Same p (set_reader p w r)
unfolding set_reader
set_reader-Same p w r = record { buf = λ j. refl; storage = λ j. refl; memory = refl }

pub wake-Same : (p : Pair) (i : Bool) → Same p (wake p i)
wake-Same p i =
    let k = wake-Woken p i in
    record { buf = λ j. (k.same j).0; storage = λ j. (k.same j).2; memory = k.memory }

pub close_pair-Same : (p : Pair) → Same p (close_pair p)
unfolding close_pair
close_pair-Same p =
    let q = record p { closed = true } in
    let a = wake-Same q false in
    let b = wake-Same (wake q false) true in
    record {
      buf = λ j. b.buf j ∙ a.buf j;
      storage = λ j. b.storage j ∙ a.storage j;
      memory = b.memory ∙ a.memory;
    }

pub unpark-Same : (p : Pair) (w : ℕ) (o : Option Bool) → Same p (unpark p w o)
unfolding unpark
unpark-Same p w none = Same-refl p
unpark-Same p w (some i) =
    if-elim (Same p) (is_pending w (p.sides i).pending)
      (set_half p i (record (p.sides i) { pending = none })) p (λ _. set_half-Same p i _ refl refl)
      (λ _. Same-refl p)

pub disarm-Same : (p : Pair) (w : ℕ) → Same p (disarm p w)
unfolding disarm
disarm-Same p w = set_reader-Same p w _
