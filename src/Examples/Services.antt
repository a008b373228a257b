-- ===== src/Examples/Services.antt =====
-- Three services of a context, the last of which is added after the context was shut down; and the
-- registration of a service under its type and under its key.
use capy.Base.{◌+◌, ◌≡◌, refl, arith, true, false, [], ◌∷◌, some}
use capy.Exec.Services.{
  Service, Factory, Context, Classes, Registered, add_service, delete, use_found, use_added,
  make_added, stop, begin_shutdown, take_service, finish, make_created, make_service_impl,
  destroy_context,
}
use capy.Exec.Services.System.{
  System, start, Reach, begin, then_, registers, uses, makes, begins, goes_on, catches_up, destroys,
}
use capy.Exec.Services.Tracking.{Managed}
use capy.Exec.Services.Managed.{Reach-Managed}
use capy.Exec.Services.Shutdown.{IsQuiet, ended_with, destroy_context-added}
use capy.Exec.Services.Registry.{Lasting, by_make_key, Registers-Lasting}

abbrev timers : Factory
timers = record { t0 = 1; t1 = 1 }

abbrev sockets : Factory
sockets = record { t0 = 2; t1 = 7 }

abbrev logs : Factory
logs = record { t0 = 3; t1 = 3 }

abbrev one : System
one = registers start 100 (use_added start.context timers 100)

abbrev two : System
two = registers one 200 (make_added one.context sockets 200)

-- The key of the sockets is taken.
abbrev again : System
again = registers two 300 (make_added two.context (record { t0 = 4; t1 = 7 }) 300)

abbrev down : System
down = record again { context = begin_shutdown again.context; cursor = 200 ∷ 100 ∷ [] }

abbrev first : System
first = record down { context = stop down.context 200; cursor = 100 ∷ [] }

abbrev more : System
more = registers first 400 (use_added first.context logs 400)

abbrev late : System
late = record more { context = stop more.context 400; late = [] }

abbrev second : System
second = record late { context = stop late.context 100; cursor = [] }

abbrev socket_service : Service
socket_service = record { address = 200; t0_ = 2; t1_ = 7 }

abbrev timer_service : Service
timer_service = record { address = 100; t0_ = 1; t1_ = 1 }

abbrev gone : System
gone = record second {
  context =
      take_service second.context (record { address = 400; t0_ = 3; t1_ = 3 })
        (socket_service ∷ timer_service ∷ []);
}

again-Reach : Reach again
unfolding use_added make_added add_service use_found delete
again-Reach =
    then_ (then_ (then_ begin (uses timers 100 refl)) (makes sockets 200 refl))
      (makes (record { t0 = 4; t1 = 7 }) 300 refl)

gone-Reach : Reach gone
unfolding use_added make_added add_service use_found delete begin_shutdown stop take_service
gone-Reach =
    then_
      (then_
        (then_
          (then_ (then_ (then_ again-Reach (begins refl)) (goes_on 200 (100 ∷ []) refl))
            (uses logs 400 refl))
          (catches_up 400 refl))
        (goes_on 100 [] refl))
      (destroys _ (socket_service ∷ timer_service ∷ []) refl refl refl refl)

gone_test : (gone.context.stopped ≡ 200 ∷ 400 ∷ 100 ∷ []) × (gone.context.deleted ≡ 300 ∷ 400 ∷ [])
unfolding use_added make_added add_service use_found delete begin_shutdown stop take_service
gone_test = (refl, refl)

Reach-Managed_example : Managed gone
Reach-Managed_example = Reach-Managed gone-Reach

abbrev classes : Classes
classes = record {
  create = λ f c. (c, some (500 + f.t0));
  on_shutdown = λ v c. c;
  on_delete = λ v c. c;
}

classes-IsQuiet : IsQuiet classes
classes-IsQuiet = record { shuts = λ v c. refl; deletes = λ v c. refl }

again_open : again.context.shutdown_ ≡ false
unfolding use_added make_added add_service use_found delete
again_open = refl

destroy_context-added_example :
    destroy_context classes 2 again.context ≡ some (ended_with again.context again.added)
unfolding use_added make_added add_service use_found delete
destroy_context-added_example =
    destroy_context-added classes 2 again-Reach again_open classes-IsQuiet (omega arith)

destroy_context_test : ended_with again.context again.added ≡ record {
  services = [];
  shutdown_ = true;
  destroyed_ = true;
  stopped = 200 ∷ 100 ∷ [];
  deleted = 300 ∷ 200 ∷ 100 ∷ [];
}
unfolding use_added make_added add_service use_found delete
destroy_context_test = refl

abbrev made : Context × Registered
made = make_service_impl classes sockets one.context

abbrev made_service : Service
made_service = record { address = 502; t0_ = 2; t1_ = 7 }

Registers-Lasting_example : Lasting classes made.0 7 made_service
unfolding make_service_impl make_created make_added add_service finish use_added use_found
Registers-Lasting_example =
    Registers-Lasting {c = one.context} made_service classes-IsQuiet (by_make_key sockets) refl
