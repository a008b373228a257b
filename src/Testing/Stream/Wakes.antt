-- ===== src/Testing/Stream/Wakes.antt =====
-- What `state::wake` does.
use capy.Base.{
  ℕ, ◌+◌, ◌≡◌, refl, sym, ap, subst, ◌∙◌, Bool, true, false, not, [], ◌∷◌, ◌++◌, Option, none, some,
  inl, inr, if◌then◌else◌, arith, Bool-cases,
}
use capy.Testing.Stream.{Pair, set_half, set_reader, woken, wake}
use capy.Testing.Stream.Halves.{set_half_other, reader-cases}
use capy.Sync.Counts.{flag, times, times-snoc, plus_zero}

-- The strings, and whether a side is at its end.
abbrev pub SameData : Pair → Pair → Type 0
SameData p q =
    (j : Bool)
    → ((q.sides j).buf ≡ (p.sides j).buf)
      × ((q.sides j).eof ≡ (p.sides j).eof)
      × ((q.sides j).storage ≡ (p.sides j).storage)

abbrev pub Once : Pair → ℕ → Type 0
Once p v = times v p.posted ≡ flag (p.reader v).claimed

-- No reader is parked on the side `i` any more: one that was is claimed.
pub record Woken (p : Pair) (i : Bool) (q : Pair) : Type 0 where
  pub same : SameData p q
  pub closed : q.closed ≡ p.closed
  pub memory : q.memory ≡ p.memory
  pub unparked : (q.sides i).pending ≡ none
  pub other : q.sides (not i) ≡ p.sides (not i)
  pub unclaimed : (v : ℕ) → (q.reader v).claimed ≡ false → (p.reader v).claimed ≡ false
  pub active : (v : ℕ) → (q.reader v).active ≡ (p.reader v).active
  pub once : (v : ℕ) → Once p v → Once q v
  pub claims : (v : ℕ) → (p.sides i).pending ≡ some v → (q.reader v).claimed ≡ true

unpend : Pair → Bool → Pair
unpend p i = set_half p i (record (p.sides i) { pending = none })

unpend-data : (p : Pair) (i : Bool) → SameData p (unpend p i)
unfolding unpend set_half
unpend-data p false false = (refl, refl, refl)
unpend-data p false true = (refl, refl, refl)
unpend-data p true false = (refl, refl, refl)
unpend-data p true true = (refl, refl, refl)

unpend-unparked : (p : Pair) (i : Bool) → ((unpend p i).sides i).pending ≡ none
unfolding unpend set_half
unpend-unparked p false = refl
unpend-unparked p true = refl

-- Nobody to wake, or one that was claimed already.
idle-Woken : (p : Pair) (i : Bool) → (p.sides i).pending ≡ none → Woken p i p
idle-Woken p i h = record {
  same = λ j. (refl, refl, refl);
  closed = refl;
  memory = refl;
  unparked = h;
  other = refl;
  unclaimed = λ v k. k;
  active = λ v. refl;
  once = λ v k. k;
  claims = λ v k. cc (h, k);
}

late-Woken :
    (p : Pair) (i : Bool) (w : ℕ)
    → (p.sides i).pending ≡ some w
    → (p.reader w).claimed ≡ true
    → Woken p i (unpend p i)
unfolding unpend set_half
late-Woken p i w h e = record {
  same = unpend-data p i;
  closed = refl;
  memory = refl;
  unparked = unpend-unparked p i;
  other = set_half_other p i _;
  unclaimed = λ v k. k;
  active = λ v. refl;
  once = λ v k. k;
  claims = λ v k. let eq : w ≡ v = cc (sym h ∙ k) in ap (λ u. (p.reader u).claimed) (sym eq) ∙ e;
}

claim_first : Pair → Bool → ℕ → Pair
claim_first p i w = record (set_reader (unpend p i) w (record (p.reader w) { claimed = true })) {
  posted = p.posted ++ w ∷ [];
}

first-Woken :
    (p : Pair) (i : Bool) (w : ℕ)
    → (p.sides i).pending ≡ some w
    → (p.reader w).claimed ≡ false
    → Woken p i (claim_first p i w)
unfolding unpend claim_first set_reader set_half
first-Woken p i w h e = record {
  same = unpend-data p i;
  closed = refl;
  memory = refl;
  unparked = unpend-unparked p i;
  other = set_half_other p i _;
  unclaimed = λ v.
      reader-cases (unpend p i) w (record (p.reader w) { claimed = true }) v
        (λ r n. r.claimed ≡ false → (p.reader v).claimed ≡ false) (λ _ k. cc k) (λ _ k. k);
  active = λ v.
      reader-cases (unpend p i) w (record (p.reader w) { claimed = true }) v
        (λ r n. r.active ≡ (p.reader v).active) (λ eq. ap (λ u. (p.reader u).active) (sym eq))
        (λ _. refl);
  once = λ v k.
      times-snoc v w p.posted
      ∙ reader-cases (unpend p i) w (record (p.reader w) { claimed = true }) v
          (λ r n. times v p.posted + n ≡ flag r.claimed)
          (λ eq.
            let none_yet : (p.reader v).claimed ≡ false = ap (λ u. (p.reader u).claimed) eq ∙ e in
            omega (arith, k, ap flag none_yet))
          (λ _. plus_zero (times v p.posted) ∙ k);
  claims = λ v k.
      reader-cases (unpend p i) w (record (p.reader w) { claimed = true }) v
        (λ r n. r.claimed ≡ true) (λ _. refl)
        (λ other. let eq : w ≡ v = cc (sym h ∙ k) in absurd (ground (arith, other, eq)));
}

woken-Woken :
    (p : Pair) (i : Bool) (o : Option ℕ) → (p.sides i).pending ≡ o → Woken p i (woken p i o)
unfolding woken claim_first unpend set_half
woken-Woken p i none h = idle-Woken p i h
woken-Woken p i (some w) h = elim (Bool-cases (p.reader w).claimed) [
  | inl e ↦
      subst (Woken p i) (ap (λ c. if c then unpend p i else claim_first p i w) (sym e))
        (late-Woken p i w h e)
  | inr e ↦
      subst (Woken p i) (ap (λ c. if c then unpend p i else claim_first p i w) (sym e))
        (first-Woken p i w h e)
]

pub wake-Woken : (p : Pair) (i : Bool) → Woken p i (wake p i)
unfolding wake
wake-Woken p i = woken-Woken p i (p.sides i).pending refl
