-- ===== src/Exec/Services/Managed.antt =====
-- The shutdown and the destruction of services, and every state that their users reach.
use capy.Base.{
  ℕ, ◌+◌, ◌≤◌, ◌≡◌, refl, sym, ap, subst, ◌∙◌, arith, Bool, true, false, List, [], ◌∷◌, ◌==◌, ◌||◌,
  if◌then◌else◌, Bool-cases, inl, inr, has,
}
use capy.Sync.Mutex.{remove}
use capy.Sync.Counts.{flag, times, times-snoc, times-remove_other, times-remove_self, is_it}
use capy.Exec.Services.{Service, delete, use_added, stop, begin_shutdown, take_service}
use capy.Exec.Services.System.{
  System, addresses, Step, uses, makes, begins, goes_on, catches_up, destroys, start, Reach, begin,
  then_,
}
use capy.Exec.Services.Tracking.{
  Keyed, Kept, nothing, without_first, Tracked, Managed, use-Managed, make-Managed,
}

stopped-Tracked :
    (known shut : Bool) (k here added deleted stopped due due' : ℕ)
    → due ≡ k + due'
    → Tracked known shut here added deleted stopped due
    → Tracked known shut here added deleted (stopped + k) due'
stopped-Tracked known shut k here added deleted stopped due due' e t = record {
  one = t.one;
  were = t.were;
  held = t.held;
  calls = omega (arith, e) ∙ t.calls;
  told = omega (arith, t.told);
}

stop-Managed :
    (s : System) (v : ℕ) (cursor late : List ℕ)
    → ((u : ℕ)
        → times u s.cursor + times u s.late ≡ flag (u == v) + (times u cursor + times u late))
    → Managed s
    → Managed (record s { context = stop s.context v; cursor = cursor; late = late })
unfolding stop
stop-Managed s v cursor late e m = record {
  tracked = λ u. rw (times-snoc u v s.context.stopped) (
      stopped-Tracked (s.known u) s.context.shutdown_ (flag (u == v)) _ _ _ _ _ _ (e u)
        (m.tracked u));
  order = m.order;
  whole = m.whole;
  keyed = m.keyed;
}

times-has : (v : ℕ) (xs : List ℕ) → has v xs ≡ true → 1 ≤ times v xs
times-has v [] h = cc h
times-has v (x ∷ xs) h = elim (Bool-cases (v == x)) [
  | inl e ↦ omega (arith, ap flag e)
  | inr e ↦ omega (arith, times-has v xs (sym (ap (λ b. b || has v xs) e) ∙ h))
]

times-remove :
    (u v : ℕ) (xs : List ℕ) → has v xs ≡ true → times u xs ≡ flag (u == v) + times u (remove v xs)
times-remove u v xs h = elim (Bool-cases (u == v)) [
  | inl e ↦
      let eq : u ≡ v = ground (arith, e) in
      subst (λ w. times w xs ≡ flag (w == v) + times w (remove v xs)) (sym eq)
        (omega (arith, times-remove_self v xs, times-has v xs h, ap flag (is_it v v refl)))
  | inr e ↦ omega (arith, ap flag e, times-remove_other u v xs e)
]

begun-Tracked :
    (known shut : Bool) (here added deleted stopped cursor late : ℕ)
    → shut ≡ false
    → here ≡ added
    → Tracked known shut here added deleted stopped (cursor + late)
    → Tracked known true here added deleted stopped (here + late)
begun-Tracked known shut here added deleted stopped cursor late off all t =
    let silent : stopped + (cursor + late) ≡ 0 = t.calls ∙ ap (λ b. if b then added else 0) off in
    record {
      one = t.one;
      were = t.were;
      held = t.held;
      calls = omega (arith, silent, all);
      told = t.told;
    }

begin-Managed :
    (s : System)
    → s.context.shutdown_ ≡ false
    → Managed s
    → Managed
        (record s { context = begin_shutdown s.context; cursor = addresses s.context.services })
unfolding begin_shutdown
begin-Managed s off m = record {
  tracked = λ u.
      begun-Tracked (s.known u) s.context.shutdown_ _ _ _ _ _ _ off (ap (times u) (m.whole off))
        (m.tracked u);
  order = m.order;
  whole = λ on. cc on;
  keyed = m.keyed;
}

destroyed-Tracked :
    (known shut : Bool) (k here added deleted stopped due : ℕ)
    → shut ≡ true
    → due ≡ 0
    → Tracked known shut (k + here) added deleted stopped due
    → Tracked known shut here added (deleted + k) stopped due
destroyed-Tracked known shut k here added deleted stopped due on nobody t =
    let done : stopped + due ≡ added = t.calls ∙ ap (λ b. if b then added else 0) on in
    record {
      one = omega (arith, t.one);
      were = t.were;
      held = omega (arith, t.held);
      calls = t.calls;
      told = omega (arith, done, nobody);
    }

destroy-Managed :
    (s : System) (p : Service) (ps : List Service)
    → s.context.shutdown_ ≡ true
    → s.cursor ≡ []
    → s.late ≡ []
    → s.context.services ≡ p ∷ ps
    → Managed s
    → Managed (record s { context = take_service s.context p ps })
unfolding take_service delete
destroy-Managed s p ps on no_cursor no_late e m = record {
  tracked = λ u.
      let t = m.tracked u in
      rw (times-snoc u p.address s.context.deleted) (
        destroyed-Tracked (s.known u) s.context.shutdown_ (flag (u == p.address)) _ _ _ _ _ on
          (omega (arith, ap (times u) no_cursor, ap (times u) no_late))
          (subst
            (λ l.
              Tracked (s.known u) s.context.shutdown_ (times u (addresses l)) (times u s.added)
                (times u s.context.deleted) (times u s.context.stopped)
                (times u s.cursor + times u s.late))
            e t));
  order = without_first (subst (λ l. Kept (addresses l) s.added) e m.order);
  whole = λ off. cc (on, off);
  keyed = (subst Keyed e m.keyed).1;
}

Step-Managed : {s t : System} → Step s t → Managed s → Managed t
unfolding use_added
Step-Managed {s} (uses f v new) m = use-Managed s f v _ refl new m
Step-Managed {s} (makes f v new) m = make-Managed s f v new m
Step-Managed {s} (begins off) m = begin-Managed s off m
Step-Managed {s} (goes_on v vs e) m =
    stop-Managed s v vs s.late (λ u. omega (arith, ap (times u) e)) m
Step-Managed {s} (catches_up v h) m =
    stop-Managed s v s.cursor (remove v s.late) (λ u. omega (arith, times-remove u v s.late h)) m
Step-Managed {s} (destroys p ps on no_cursor no_late e) m =
    destroy-Managed s p ps on no_cursor no_late e m

start-Managed : Managed start
start-Managed = record {
  tracked = λ u. record {
    one = refl;
    were = omega arith;
    held = omega arith;
    calls = refl;
    told = omega arith;
  };
  order = nothing;
  whole = λ _. refl;
  keyed = tt;
}

-- Whatever threads and services do that register services, by use_service and make_service in any
-- interleaving, also from constructors, shutdown functions and destructors of services, while the
-- context is in use, shut down or destroyed: a service that was created stands once in the list or
-- was deleted once, never both; one that was added, and only such a one, is shut down once after
-- the shutdown began, or will be, and before it is deleted; the list has the newest service first;
-- and no service is indexed under the type of one that was added after it.
pub Reach-Managed : {s : System} → Reach s → Managed s
Reach-Managed begin = start-Managed
Reach-Managed (then_ reach step) = Step-Managed step (Reach-Managed reach)
