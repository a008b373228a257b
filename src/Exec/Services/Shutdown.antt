-- ===== src/Exec/Services/Shutdown.antt =====
-- The destructor of a context.
use capy.Base.{
  ℕ, zero, suc, ◌≤◌, ◌≡◌, refl, sym, ap, ◌∙◌, arith, true, false, List, [], ◌∷◌, ◌++◌, append-nil,
  append_assoc, some, if◌then◌else◌, length,
}
use capy.Sync.Counts.{flag, times, is_it}
use capy.Exec.Services.{
  Service, Context, Classes, stop, delete, take_service, begin_shutdown, shutdown_loop, shutdown,
  destroy_loop, destroy, destroy_context,
}
use capy.Exec.Services.System.{System, addresses, Reach}
use capy.Exec.Services.Tracking.{Managed}
use capy.Exec.Services.Managed.{Reach-Managed}

-- `shutdown` and the destructors of the services leave the context alone.
pub record IsQuiet (k : Classes) : Type 0 where
  pub shuts : (v : ℕ) (c : Context) → k.on_shutdown v c ≡ c
  pub deletes : (v : ℕ) (c : Context) → k.on_delete v c ≡ c

module _ (k : Classes) (q : IsQuiet k) where
  shutdown_loop_lem :
      (ps : List Service) (c : Context)
      → shutdown_loop k ps c ≡ record c { stopped = c.stopped ++ addresses ps }
  unfolding shutdown_loop stop
  shutdown_loop_lem [] c = ap (λ l. record c { stopped = l }) (sym (append-nil c.stopped))
  shutdown_loop_lem (p ∷ ps) c =
      ap (shutdown_loop k ps) (q.shuts p.address (stop c p.address))
      ∙ shutdown_loop_lem ps (stop c p.address)
      ∙ ap (λ l. record c { stopped = l }) (append_assoc c.stopped (p.address ∷ []) (addresses ps))

  abbrev emptied : Context → List ℕ → Context
  emptied c vs = record c { services = []; destroyed_ = true; deleted = c.deleted ++ vs }

  destroy_loop_lem :
      (n : ℕ) (ps : List Service) (c : Context)
      → c.services ≡ ps
      → length ps ≤ n
      → destroy_loop k n ps c ≡ some (emptied c (addresses ps))
  unfolding destroy_loop take_service delete
  destroy_loop_lem n [] c e h =
      ap (λ l. some (record c { services = l; destroyed_ = true })) e
      ∙ ap (λ l. some (record c { services = []; destroyed_ = true; deleted = l }))
          (sym (append-nil c.deleted))
  destroy_loop_lem zero (p ∷ ps) c e h = absurd (omega arith)
  destroy_loop_lem (suc n) (p ∷ ps) c e h =
      ap (λ d. destroy_loop k n d.services d) (q.deletes p.address (take_service c p ps))
      ∙ destroy_loop_lem n ps (take_service c p ps) refl (omega (arith, h))
      ∙ ap (λ l. some (record c { services = []; destroyed_ = true; deleted = l }))
          (append_assoc c.deleted (p.address ∷ []) (addresses ps))

nobody : (xs : List ℕ) → ((u : ℕ) → times u xs ≡ 0) → xs ≡ []
nobody [] h = refl
nobody (x ∷ xs) h = absurd (omega (arith, h x, ap flag (is_it x x refl)))

length-addresses : (ps : List Service) → length (addresses ps) ≡ length ps
length-addresses [] = refl
length-addresses (p ∷ ps) = ap suc (length-addresses ps)

abbrev pub ended_with : Context → List ℕ → Context
ended_with c added = record {
  services = [];
  shutdown_ = true;
  destroyed_ = true;
  stopped = added;
  deleted = c.deleted ++ added;
}

none_stopped : (s : System) → Managed s → s.context.shutdown_ ≡ false → s.context.stopped ≡ []
none_stopped s m off = nobody s.context.stopped (λ u.
    let silent = (m.tracked u).calls ∙ ap (λ b. if b then times u s.added else 0) off in
    omega (arith, silent))

-- In every reachable state before the shutdown, if the services' own code leaves the context alone,
-- the destructor of the context with as many rounds as services were added ends; it has shut down
-- every service that was added, and deleted it, each once and in the reverse of the order in which
-- they were added, and none is left.
pub destroy_context-added :
    {s : System} (k : Classes) (n : ℕ)
    → Reach s
    → s.context.shutdown_ ≡ false
    → IsQuiet k
    → length s.added ≤ n
    → destroy_context k n s.context ≡ some (ended_with s.context s.added)
unfolding destroy_context destroy shutdown begin_shutdown
destroy_context-added {s} k n reach off q enough =
    let m = Reach-Managed reach in
    let all = m.whole off in
    let c = s.context in
    let down : shutdown k c ≡ record c { shutdown_ = true; stopped = s.added } =
      ap (λ b. if b then c else shutdown_loop k c.services (begin_shutdown c)) off
      ∙ shutdown_loop_lem k q c.services (begin_shutdown c)
      ∙ ap (λ l. record c { shutdown_ = true; stopped = l ++ addresses c.services })
          (none_stopped s m off)
      ∙ ap (λ l. record c { shutdown_ = true; stopped = l }) all in
    ap (destroy k n) down
    ∙ destroy_loop_lem k q n c.services _ refl
        (omega (arith, enough, ap length all, length-addresses c.services))
    ∙ ap
        (λ l. some (record c {
          services = [];
          shutdown_ = true;
          destroyed_ = true;
          stopped = s.added;
          deleted = c.deleted ++ l;
        }))
        all
