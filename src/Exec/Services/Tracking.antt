-- ===== src/Exec/Services/Tracking.antt =====
-- What holds of a context and its services, and that the registrations keep it.
use capy.Base.{
  ℕ, ◌+◌, ◌≤◌, ◌≡◌, refl, ap, ◌∙◌, arith, Bool, true, false, List, [], ◌∷◌, Option, none, some,
  ◌==◌, ◌||◌, if◌then◌else◌, Bool-cases, inl, inr, if-elim,
}
use capy.Sync.Counts.{flag, times, times-snoc}
use capy.Exec.Services.{
  Service, Factory, Context, Registered, find_impl, is_some, is_taken, add_service, delete,
  use_found, make_added,
}
use capy.Exec.Services.System.{System, addresses, mark, registers}

-- No service is indexed under the type of one that was added after it.
abbrev pub Keyed : List Service → Type 0
Keyed [] = Unit {0}
Keyed (p ∷ ps) = (find_impl ps p.t0_ ≡ none) × Keyed ps

-- The first list is the second without some of its members.
pub data Kept : List ℕ → List ℕ → Type 0 where
  nothing : Kept [] []
  with_ : {xs ys : List ℕ} (v : ℕ) → Kept xs ys → Kept (v ∷ xs) (v ∷ ys)
  without : {xs ys : List ℕ} (v : ℕ) → Kept xs ys → Kept xs (v ∷ ys)

pub without_first : {v : ℕ} {xs ys : List ℕ} → Kept (v ∷ xs) ys → Kept xs ys
without_first (with_ v k) = without v k
without_first (without u k) = without u (without_first k)

-- An address that is so often among the services, the added ones, the deleted ones and the stopped
-- ones, and has so many calls of `service::shutdown` to come.
pub record Tracked (known shut : Bool) (here added deleted stopped due : ℕ) : Type 0 where
  pub one : here + deleted ≡ flag known
  pub were : added ≤ flag known
  pub held : here ≤ added
  pub calls : stopped + due ≡ (if shut then added else 0)
  pub told : added ≤ stopped + here

abbrev pub TrackedAt : System → ℕ → Type 0
TrackedAt s u =
    Tracked (s.known u) s.context.shutdown_ (times u (addresses s.context.services))
      (times u s.added) (times u s.context.deleted) (times u s.context.stopped)
      (times u s.cursor + times u s.late)

pub record Managed (s : System) : Type 0 where
  pub tracked : (u : ℕ) → TrackedAt s u
  pub order : Kept (addresses s.context.services) s.added
  pub whole : s.context.shutdown_ ≡ false → addresses s.context.services ≡ s.added
  pub keyed : Keyed s.context.services

-- An address that is new, seen from any address.
flag-mark : (f : ℕ → Bool) (v u : ℕ) → f v ≡ false → flag (mark f v u) ≡ flag (u == v) + flag (f u)
flag-mark f v u new = elim (Bool-cases (u == v)) [
  | inl e ↦ let eq : u ≡ v = ground (arith, e) in rw e (omega (arith, ap flag (ap f eq ∙ new)))
  | inr e ↦ rw e (omega arith)
]

added-Tracked :
    (shut : Bool) (known : Bool) (k here added deleted stopped cursor late : ℕ) (known' : Bool)
    → flag known' ≡ k + flag known
    → Tracked known shut here added deleted stopped (cursor + late)
    → Tracked known' shut
        (k + here)
        (k + added)
        deleted
        stopped
        (cursor + (if shut then k + late else late))
added-Tracked true known k here added deleted stopped cursor late known' e t = record {
  one = omega (arith, e, t.one);
  were = omega (arith, e, t.were);
  held = omega (arith, t.held);
  calls = omega (arith, t.calls);
  told = omega (arith, t.told);
}
added-Tracked false known k here added deleted stopped cursor late known' e t = record {
  one = omega (arith, e, t.one);
  were = omega (arith, e, t.were);
  held = omega (arith, t.held);
  calls = omega (arith, t.calls);
  told = omega (arith, t.told);
}

times-late :
    (u v : ℕ) (shut : Bool) (late : List ℕ)
    → times u (if shut then v ∷ late else late)
      ≡ (if shut then flag (u == v) + times u late else times u late)
times-late u v true late = refl
times-late u v false late = refl

pub add-Managed :
    (s : System) (p : Service)
    → s.known p.address ≡ false
    → find_impl s.context.services p.t0_ ≡ none
    → Managed s
    → Managed (registers s p.address (add_service s.context p))
unfolding add_service
add-Managed s p new free m = record {
  tracked = λ u. rw (times-late u p.address s.context.shutdown_ s.late) (
      added-Tracked s.context.shutdown_ (s.known u) (flag (u == p.address)) _ _ _ _ _ _ _
        (flag-mark s.known p.address u new) (m.tracked u));
  order = with_ p.address m.order;
  whole = λ on. ap (λ l. p.address ∷ l) (m.whole on);
  keyed = (free, m.keyed);
}

deleted-Tracked :
    (known shut : Bool) (k here added deleted stopped due : ℕ) (known' : Bool)
    → flag known' ≡ k + flag known
    → Tracked known shut here added deleted stopped due
    → Tracked known' shut here added (deleted + k) stopped due
deleted-Tracked known shut k here added deleted stopped due known' e t = record {
  one = omega (arith, e, t.one);
  were = omega (arith, e, t.were);
  held = t.held;
  calls = t.calls;
  told = t.told;
}

pub delete-Managed :
    (s : System) (v : ℕ)
    → s.known v ≡ false
    → Managed s
    → Managed (record s { context = delete s.context v; known = mark s.known v })
unfolding delete
delete-Managed s v new m = record {
  tracked = λ u. rw (times-snoc u v s.context.deleted) (
      deleted-Tracked (s.known u) _ (flag (u == v)) _ _ _ _ _ _ (flag-mark s.known v u new)
        (m.tracked u));
  order = m.order;
  whole = m.whole;
  keyed = m.keyed;
}

pub use-Managed :
    (s : System) (f : Factory) (v : ℕ) (o : Option Service)
    → find_impl s.context.services f.t0 ≡ o
    → s.known v ≡ false
    → Managed s
    → Managed (registers s v (use_found s.context f v o))
unfolding use_found
use-Managed s f v none e new m = add-Managed s _ new e m
use-Managed s f v (some p) e new m = delete-Managed s v new m

unfound : (o : Option Service) → is_some o ≡ false → o ≡ none
unfound none e = refl
unfound (some p) e = cc e

or-left : (a b : Bool) → (a || b) ≡ false → a ≡ false
or-left false b e = refl
or-left true b e = cc e

pub make-Managed :
    (s : System) (f : Factory) (v : ℕ)
    → s.known v ≡ false
    → Managed s
    → Managed (registers s v (make_added s.context f v))
unfolding make_added
make-Managed s f v new m =
    let P = λ (r : Context × Registered). Managed (registers s v r) in
    if-elim P (is_taken s.context f) _ _ (λ _. delete-Managed s v new m)
      (λ free. add-Managed s _ new (unfound _ (or-left _ _ free)) m)
