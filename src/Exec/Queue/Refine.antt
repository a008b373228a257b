-- ===== src/Exec/Queue/Refine.antt =====
-- The linked queue as a list.
use capy.Base.{
  ℕ, arith, ◌≡◌, refl, sym, ap, subst, ◌∙◌, inl, inr, true, false, Option, none, some, List, [],
  ◌∷◌, ◌++◌, ◌==◌, Option-cases, has, Distinct,
}
use mathlib.Core.Option.{get_or, IsSome}
use capy.Exec.Queue.{Queue, link, push, pop}

-- From the link `h`, the links lead through the list and end.
abbrev pub Chain : (ℕ → Option ℕ) → Option ℕ → List ℕ → Type 0
Chain f h [] = h ≡ none
Chain f h (x ∷ xs) = (h ≡ some x) × Chain f (f x) xs

abbrev pub last : List ℕ → Option ℕ
last [] = none
last (x ∷ []) = some x
last (x ∷ y ∷ ys) = last (y ∷ ys)

pub record Represents (q : Queue) (xs : List ℕ) : Type 0 where
  pub chain : Chain q.reserved q.head_ xs
  pub tail : q.tail_ ≡ last xs
  pub distinct : Distinct xs

not_none : {A : Type 0} {a : A} → ¬ (none ≡ some a)
not_none h = subst IsSome (sym h) tt

Chain-link :
    (f : ℕ → Option ℕ) (a : ℕ) (o h : Option ℕ) (xs : List ℕ)
    → has a xs ≡ false
    → Chain f h xs
    → Chain (link f a o) h xs
unfolding link
Chain-link f a o h [] new chain = chain
Chain-link f a o h (x ∷ xs) new (here, chain) =
    let other : (x == a) ≡ false = ground (arith, new) in
    (here, rw other (Chain-link f a o (f x) xs (ground (arith, new)) chain))

link-same : (f : ℕ → Option ℕ) (a : ℕ) (o : Option ℕ) → link f a o a ≡ o
unfolding link
link-same f a o = ground arith

link-other : (f : ℕ → Option ℕ) (a b : ℕ) (o : Option ℕ) → (b == a) ≡ false → link f a o b ≡ f b
unfolding link
link-other f a b o h = rw h refl

has-last : (t : ℕ) (xs : List ℕ) → last xs ≡ some t → has t xs ≡ true
has-last t [] h = absurd (not_none h)
has-last t (x ∷ []) h = ground (arith, ap (λ o. get_or o x) h)
has-last t (x ∷ y ∷ ys) h = ground (arith, has-last t (y ∷ ys) h)

Chain-append :
    (f : ℕ → Option ℕ) (t c : ℕ) (h : Option ℕ) (xs : List ℕ)
    → has c xs ≡ false
    → Distinct xs
    → last xs ≡ some t
    → Chain f h xs
    → f c ≡ none
    → Chain (link f t (some c)) h (xs ++ c ∷ [])
Chain-append f t c h [] new distinct end chain stop = absurd (not_none end)
Chain-append f t c h (x ∷ []) new distinct end (here, chain) stop =
    let same : x ≡ t = ap (λ o. get_or o x) end in
    (
      here,
      (
        subst (λ u. link f u (some c) x ≡ some c) same (link-same f x (some c)),
        link-other f t c (some c) (ground (arith, new, same)) ∙ stop,
      ),
    )
Chain-append f t c h (x ∷ y ∷ ys) new distinct end (here, chain) stop =
    let inner = has-last t (y ∷ ys) end in
    let other : (x == t) ≡ false = ground (arith, inner, distinct.0) in
    let r = Chain-append f t c (f x) (y ∷ ys) (ground (arith, new)) distinct.1 end chain stop in
    (here, (link-other f t x (some c) other ∙ r.0, r.1))

last-append : (c : ℕ) (xs : List ℕ) → last (xs ++ c ∷ []) ≡ some c
last-append c [] = refl
last-append c (x ∷ []) = refl
last-append c (x ∷ y ∷ ys) = last-append c (y ∷ ys)

has-append_new :
    (a c : ℕ) (xs : List ℕ) → has a xs ≡ false → (a == c) ≡ false → has a (xs ++ c ∷ []) ≡ false
has-append_new a c [] h k = rw k refl
has-append_new a c (x ∷ xs) h k = ground (arith, has-append_new a c xs, h, k)

Distinct-append : (c : ℕ) (xs : List ℕ) → has c xs ≡ false → Distinct xs → Distinct (xs ++ c ∷ [])
Distinct-append c [] h d = (refl, tt)
Distinct-append c (x ∷ xs) h (d, ds) =
    (has-append_new x c xs d (ground (arith, h)), Distinct-append c xs (ground (arith, h)) ds)

last-some : (x : ℕ) (xs : List ℕ) → ¬ (last (x ∷ xs) ≡ none)
last-some x [] h = not_none (sym h)
last-some x (y ∷ ys) h = last-some y ys h

-- A push of a continuation that is not in the queue puts it at the end.
pub push-Represents :
    (q : Queue) (c : ℕ) (xs : List ℕ)
    → has c xs ≡ false
    → Represents q xs
    → Represents (push q c) (xs ++ c ∷ [])
unfolding push
push-Represents q c [] new v =
    rw v.tail
      (record { chain = (refl, link-same q.reserved c none); tail = refl; distinct = (refl, tt) })
push-Represents q c (x ∷ xs) new v = elim (Option-cases q.tail_) [
  | inl end ↦ absurd (last-some x xs (sym v.tail ∙ end))
  | inr (t, end) ↦ rw end (record {
    chain =
        Chain-append (link q.reserved c none) t c q.head_ (x ∷ xs) new v.distinct (sym v.tail ∙ end)
          (Chain-link q.reserved c none q.head_ (x ∷ xs) new v.chain) (link-same q.reserved c none);
    tail = sym (last-append c (x ∷ xs));
    distinct = Distinct-append c (x ∷ xs) new v.distinct;
  })
]

pub pop-nil : (q : Queue) → Represents q [] → pop q ≡ (q, none)
unfolding pop
pop-nil q v = rw v.chain refl

-- A pop takes the first continuation, and `empty` tells whether there is one.
pub pop-Represents :
    (q : Queue) (x : ℕ) (xs : List ℕ)
    → Represents q (x ∷ xs)
    → ((pop q).1 ≡ some x) × Represents (pop q).0 xs
unfolding pop
pop-Represents q x [] v =
    rw (pop, v.chain.0, pop, v.chain.1) (refl, record { chain = refl; tail = refl; distinct = tt })
pop-Represents q x (y ∷ ys) v =
    rw (pop, v.chain.0, pop, v.chain.1.0)
      (refl, record { chain = (refl, v.chain.1.1); tail = v.tail; distinct = v.distinct.1 })
