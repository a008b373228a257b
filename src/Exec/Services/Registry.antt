-- ===== src/Exec/Services/Registry.antt =====
-- What a registration leaves in the context.
use capy.Base.{
  ℕ, ◌≡◌, refl, sym, ap, ◌∙◌, arith, Bool, true, false, not, ◌&&◌, ◌||◌, Option, none, some, ◌==◌,
  ◌⊎◌, inl, inr, if◌then◌else◌, if-elim,
}
use capy.Sync.Counts.{is_it}
use capy.Exec.Services.{
  Service, Factory, Context, Classes, Registered, created, existing, create_failed,
  invalid_argument, find_impl, is_some, has_service, is_taken, add_service, delete, use_found,
  use_added, make_added, stop, finish, use_created, use_first, use_service_impl, make_created,
  make_service_impl,
}
use capy.Exec.Services.Shutdown.{IsQuiet}

abbrev pub service_of : Registered → Option Service
service_of (created p) = some p
service_of (existing p) = some p
service_of create_failed = none
service_of invalid_argument = none

-- The service `p` is the one of the type `ti` from now on.
pub record Lasting (k : Classes) (c : Context) (ti : ℕ) (p : Service) : Type 0 where
  pub found : find_impl c.services ti ≡ some p
  pub used : (t : ℕ) → use_service_impl k (record { t0 = ti; t1 = t }) c ≡ (c, existing p)
  pub refused :
      (t : ℕ)
      → (make_service_impl k (record { t0 = ti; t1 = t }) c ≡ (c, invalid_argument))
        × (make_service_impl k (record { t0 = t; t1 = ti }) c ≡ (c, invalid_argument))

or_right : (a b : Bool) → b ≡ true → (a || b) ≡ true
or_right true b h = refl
or_right false b h = h

taken_key : (c : Context) (f : Factory) → has_service c f.t1 ≡ true → is_taken c f ≡ true
taken_key c f h =
    elim (f.t0 == f.t1)
        as (λ b.
          (f.t0 == f.t1) ≡ b → (has_service c f.t0 || (not b && has_service c f.t1)) ≡ true) [
            | true ↦ λ e. ap (λ x. x || false) (ap (has_service c) (ground (arith, e)) ∙ h)
            | false ↦ λ e. or_right (has_service c f.t0) (has_service c f.t1) h
          ]
      refl

same_key : (f : Factory) → not (f.t0 == f.t1) ≡ false → f.t0 ≡ f.t1
same_key f h =
    elim (f.t0 == f.t1) as (λ b. (f.t0 == f.t1) ≡ b → not b ≡ false → f.t0 ≡ f.t1) [
      | true ↦ λ e _. ground (arith, e)
      | false ↦ λ e bad. cc bad
    ]
      refl h

found-Lasting :
    (k : Classes) (c : Context) (ti : ℕ) (p : Service)
    → find_impl c.services ti ≡ some p
    → Lasting k c ti p
unfolding use_service_impl use_first make_service_impl
found-Lasting k c ti p h =
    let has_it : has_service c ti ≡ true = ap is_some h in
    let throws = λ (f : Factory) (e : is_taken c f ≡ true).
      ap (λ b. if b then (c, invalid_argument) else make_created k f (k.create f c)) e in
    record {
      found = h;
      used = λ t. ap (use_first k (record { t0 = ti; t1 = t }) c) h;
      refused = λ t. (
        throws (record { t0 = ti; t1 = t })
            (ap (λ b. b || (not (ti == t) && has_service c t)) has_it),
        throws (record { t0 = t; t1 = ti }) (taken_key c (record { t0 = t; t1 = ti }) has_it),
      );
    }

module _ (k : Classes) (q : IsQuiet k) where
  -- The end of a registration keeps its services and its outcome.
  abbrev Keeps : Context × Registered → Context × Registered → Type 0
  Keeps r r' = (r'.0.services ≡ r.0.services) × (r'.1 ≡ r.1)

  finish-Keeps : (v : ℕ) (r : Context × Registered) → Keeps r (finish k v r)
  unfolding finish stop
  finish-Keeps v (c, created p) = (
    if-elim (λ (d : Context). d.services ≡ c.services) c.shutdown_ _ _
        (λ _. ap (λ d. d.services) (q.shuts p.address (stop c p.address))) (λ _. refl),
    refl,
  )
  finish-Keeps v (c, existing p) = (ap (λ d. d.services) (q.deletes v c), refl)
  finish-Keeps v (c, create_failed) = (refl, refl)
  finish-Keeps v (c, invalid_argument) = (ap (λ d. d.services) (q.deletes v c), refl)

  -- A registration whose outcome is a service is found under the type.
  abbrev Finds : ℕ → Context × Registered → Type 0
  Finds ti r = (p : Service) → service_of r.1 ≡ some p → find_impl r.0.services ti ≡ some p

  finish-Finds : (v ti : ℕ) (r : Context × Registered) → Finds ti r → Finds ti (finish k v r)
  finish-Finds v ti r h p e =
      let (same, out) = finish-Keeps v r in
      ap (λ l. find_impl l ti) same ∙ h p (ap service_of (sym out) ∙ e)

  add-Finds :
      (c : Context) (p : Service) (ti : ℕ)
      → ((p.t0_ == ti) || (p.t1_ == ti)) ≡ true
      → Finds ti (add_service c p)
  unfolding add_service
  add-Finds c p ti h r e = ap (λ b. if b then some p else find_impl c.services ti) h ∙ e

  use_found-Finds :
      (c : Context) (f : Factory) (v : ℕ) (o : Option Service)
      → find_impl c.services f.t0 ≡ o
      → Finds f.t0 (use_found c f v o)
  unfolding use_found delete
  use_found-Finds c f v none h p e =
      add-Finds c (record { address = v; t0_ = f.t0; t1_ = f.t1 }) f.t0
        (ap (λ b. b || (f.t1 == f.t0)) (is_it f.t0 f.t0 refl)) p e
  use_found-Finds c f v (some r) h p e = h ∙ e

  use_created-Finds : (f : Factory) (r : Context × Option ℕ) → Finds f.t0 (use_created k f r)
  unfolding use_created use_added
  use_created-Finds f (c, none) p e = cc e
  use_created-Finds f (c, some v) p e =
      finish-Finds v f.t0 (use_added c f v) (use_found-Finds c f v _ refl) p e

  use_first-Finds :
      (f : Factory) (c : Context) (o : Option Service)
      → find_impl c.services f.t0 ≡ o
      → Finds f.t0 (use_first k f c o)
  unfolding use_first
  use_first-Finds f c none h p e = use_created-Finds f (k.create f c) p e
  use_first-Finds f c (some r) h p e = h ∙ e

  use_service-Finds : (f : Factory) (c : Context) → Finds f.t0 (use_service_impl k f c)
  unfolding use_service_impl
  use_service-Finds f c = use_first-Finds f c _ refl

  -- The key under which `make_service_impl` files its service.
  by_key :
      (f : Factory) (ti : ℕ)
      → (f.t0 ≡ ti) ⊎ (f.t1 ≡ ti)
      → ((f.t0 == ti) || ((if not (f.t0 == f.t1) then f.t1 else f.t0) == ti)) ≡ true
  by_key f ti (inl e) =
      ap (λ b. b || ((if not (f.t0 == f.t1) then f.t1 else f.t0) == ti)) (is_it f.t0 ti e)
  by_key f ti (inr e) = or_right (f.t0 == ti) _ (
      is_it _ ti (
        if-elim (λ t. t ≡ ti) (not (f.t0 == f.t1)) f.t1 f.t0 (λ _. e)
          (λ same. same_key f same ∙ e)))

  make_added-Finds :
      (f : Factory) (v ti : ℕ) (c : Context)
      → (f.t0 ≡ ti) ⊎ (f.t1 ≡ ti)
      → Finds ti (make_added c f v)
  unfolding make_added
  make_added-Finds f v ti c h =
      if-elim (λ (r : Context × Registered). Finds ti r) (is_taken c f) _ _ (λ _ p e. cc e)
        (λ _. add-Finds c _ ti (by_key f ti h))

  make_created-Finds :
      (f : Factory) (ti : ℕ) (r : Context × Option ℕ)
      → (f.t0 ≡ ti) ⊎ (f.t1 ≡ ti)
      → Finds ti (make_created k f r)
  unfolding make_created
  make_created-Finds f ti (c, none) h p e = cc e
  make_created-Finds f ti (c, some v) h p e =
      finish-Finds v ti (make_added c f v) (make_added-Finds f v ti c h) p e

  make_service-Finds :
      (f : Factory) (c : Context) (ti : ℕ)
      → (f.t0 ≡ ti) ⊎ (f.t1 ≡ ti)
      → Finds ti (make_service_impl k f c)
  unfolding make_service_impl
  make_service-Finds f c ti h =
      if-elim (λ (r : Context × Registered). Finds ti r) (is_taken c f) _ _ (λ _ p e. cc e)
        (λ _. make_created-Finds f ti (k.create f c) h)

-- The outcomes of both registrations, with each type under which they file a service.
pub data Registers (k : Classes) (c : Context) : Context × Registered → ℕ → Type 0 where
  by_use : (f : Factory) → Registers k c (use_service_impl k f c) f.t0
  by_make : (f : Factory) → Registers k c (make_service_impl k f c) f.t0
  by_make_key : (f : Factory) → Registers k c (make_service_impl k f c) f.t1

Registers-Finds :
    (k : Classes) (c : Context) (r : Context × Registered) (ti : ℕ)
    → (q : IsQuiet k) → Registers k c r ti
    → Finds k q ti r
Registers-Finds k c _ _ q (by_use f) = use_service-Finds k q f c
Registers-Finds k c _ _ q (by_make f) = make_service-Finds k q f c f.t0 (inl refl)
Registers-Finds k c _ _ q (by_make_key f) = make_service-Finds k q f c f.t1 (inr refl)

-- When use_service or make_service of a type returns a service, whatever its constructor registered
-- meanwhile, and the shutdown functions and destructors of services leave the context alone, the
-- context finds this service under the type, and for make_service also under its key; use_service
-- of that type then returns it and changes nothing, and make_service with that type or key throws
-- and changes nothing.
pub Registers-Lasting :
    {k : Classes} {c : Context} {r : Context × Registered} {ti : ℕ} (p : Service)
    → IsQuiet k
    → Registers k c r ti
    → service_of r.1 ≡ some p
    → Lasting k r.0 ti p
Registers-Lasting {k} {c} {r} {ti} p q call e =
    found-Lasting k r.0 ti p (Registers-Finds k c r ti q call p e)
