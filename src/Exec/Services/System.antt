-- ===== src/Exec/Services/System.antt =====
-- The threads and services that use a context, as a step relation: each section under the mutex is a
-- step, and so is each call of a service's `shutdown` or destructor. The ghost state has the
-- addresses that were created, the services that were added, the newest first, and the calls of
-- `service::shutdown` that are still to come: those of the loop, and those for services added later.
use capy.Base.{ℕ, Bool, true, false, List, [], ◌∷◌, ◌≡◌, ◌==◌, if◌then◌else◌, has, map}
use capy.Sync.Mutex.{remove}
use capy.Exec.Services.{
  Service, Factory, Context, execution_context, Registered, created, existing, create_failed,
  invalid_argument, use_added, make_added, stop, begin_shutdown, take_service,
}

pub record System : Type 0 where
  pub context : Context
  pub known : ℕ → Bool
  pub added : List ℕ
  pub cursor : List ℕ
  pub late : List ℕ

abbrev pub addresses : List Service → List ℕ
addresses ps = map (λ p. p.address) ps

abbrev pub mark : (ℕ → Bool) → ℕ → ℕ → Bool
mark f v u = if u == v then true else f u

abbrev pub registers : System → ℕ → Context × Registered → System
registers s v (c, created p) = record s {
  context = c;
  known = mark s.known v;
  added = v ∷ s.added;
  late = if c.shutdown_ then v ∷ s.late else s.late;
}
registers s v (c, existing p) = record s { context = c; known = mark s.known v }
registers s v (c, create_failed) = record s { context = c; known = mark s.known v }
registers s v (c, invalid_argument) = record s { context = c; known = mark s.known v }

pub data Step (s : System) : System → Type 0 where
  uses :
      (f : Factory) (v : ℕ) → s.known v ≡ false → Step s (registers s v (use_added s.context f v))
  makes :
      (f : Factory) (v : ℕ) → s.known v ≡ false → Step s (registers s v (make_added s.context f v))
  begins :
      s.context.shutdown_ ≡ false
      → Step s
          (record s { context = begin_shutdown s.context; cursor = addresses s.context.services })
  goes_on :
      (v : ℕ) (vs : List ℕ)
      → s.cursor ≡ v ∷ vs
      → Step s (record s { context = stop s.context v; cursor = vs })
  catches_up :
      (v : ℕ)
      → has v s.late ≡ true
      → Step s (record s { context = stop s.context v; late = remove v s.late })
  destroys :
      (p : Service) (ps : List Service)
      → s.context.shutdown_ ≡ true
      → s.cursor ≡ []
      → s.late ≡ []
      → s.context.services ≡ p ∷ ps
      → Step s (record s { context = take_service s.context p ps })

abbrev pub start : System
start = record {
  context = execution_context;
  known = λ _. false;
  added = [];
  cursor = [];
  late = [];
}

pub data Reach : System → Type 0 where
  begin : Reach start
  then_ : {s t : System} → Reach s → Step s t → Reach t
