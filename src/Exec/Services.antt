-- ===== src/Exec/Services.antt =====
-- include/boost/capy/ex/execution_context.hpp and src/ex/execution_context.cpp: the services of an
-- execution context. A type index is a number, and so is the address of a service. The code of the
-- services' own classes is a parameter.
pub mod System
pub mod Tracking
pub mod Managed
pub mod Shutdown
pub mod Registry
use capy.Base.{
  ℕ, zero, suc, Bool, true, false, not, ◌&&◌, ◌||◌, List, [], ◌∷◌, ◌++◌, Option, none, some, ◌==◌,
  if◌then◌else◌,
}

-- `execution_context::service`; `address` is the pointer to it.
pub record Service : Type 0 where
  pub address : ℕ
  pub t0_ : ℕ
  pub t1_ : ℕ

pub record Factory : Type 0 where
  pub t0 : ℕ
  pub t1 : ℕ

-- The services from `head_` along `next_`, with the services that `service::shutdown` was called
-- for, and those that were deleted, in order.
pub record Context : Type 0 where
  pub services : List Service
  pub shutdown_ : Bool
  pub destroyed_ : Bool
  pub stopped : List ℕ
  pub deleted : List ℕ

abbrev pub execution_context : Context
execution_context = record {
  services = [];
  shutdown_ = false;
  destroyed_ = false;
  stopped = [];
  deleted = [];
}

abbrev pub indexed : ℕ → Service → Bool
indexed ti p = (p.t0_ == ti) || (p.t1_ == ti)

abbrev pub find_impl : List Service → ℕ → Option Service
find_impl [] ti = none
find_impl (p ∷ ps) ti = if indexed ti p then some p else find_impl ps ti

abbrev pub is_some : Option Service → Bool
is_some none = false
is_some (some p) = true

abbrev pub has_service : Context → ℕ → Bool
has_service c ti = is_some (find_impl c.services ti)

-- What a registration comes to: the new service, another one, or an exception: that of the
-- service's constructor, or `std::invalid_argument`.
pub data Registered : Type 0 where
  created : Service → Registered
  existing : Service → Registered
  create_failed : Registered
  invalid_argument : Registered

unfoldable pub add_service : Context → Service → Context × Registered
add_service c p = (record c { services = p ∷ c.services }, created p)

unfoldable pub delete : Context → ℕ → Context
delete c v = record c { deleted = c.deleted ++ v ∷ [] }

-- The second section of `use_service_impl`, for the new service `v`, by what `find_impl` returns.
unfoldable pub use_found : Context → Factory → ℕ → Option Service → Context × Registered
unfolding add_service delete
use_found c f v none = add_service c (record { address = v; t0_ = f.t0; t1_ = f.t1 })
use_found c f v (some p) = (delete c v, existing p)

unfoldable pub use_added : Context → Factory → ℕ → Context × Registered
unfolding use_found
use_added c f v = use_found c f v (find_impl c.services f.t0)

-- Whether `make_service_impl` throws.
abbrev pub is_taken : Context → Factory → Bool
is_taken c f = has_service c f.t0 || (not (f.t0 == f.t1) && has_service c f.t1)

-- The second section of `make_service_impl`.
unfoldable pub make_added : Context → Factory → ℕ → Context × Registered
unfolding add_service delete
make_added c f v =
    if is_taken c f
    then (delete c v, invalid_argument)
    else add_service c
        (record { address = v; t0_ = f.t0; t1_ = if not (f.t0 == f.t1) then f.t1 else f.t0 })

-- `service::shutdown` of `v` is called.
unfoldable pub stop : Context → ℕ → Context
stop c v = record c { stopped = c.stopped ++ v ∷ [] }

-- The code of the services' classes, which may call the context: the constructors, which return an
-- address or throw, `shutdown` and the destructors.
pub record Classes : Type 0 where
  pub create : Factory → Context → Context × Option ℕ
  pub on_shutdown : ℕ → Context → Context
  pub on_delete : ℕ → Context → Context

-- The ends of both registrations: a service that is created after the shutdown is shut down at once,
-- and one that is not registered is destroyed.
unfoldable pub finish : Classes → ℕ → Context × Registered → Context × Registered
unfolding stop
finish k v (c, created p) =
    (if c.shutdown_ then k.on_shutdown p.address (stop c p.address) else c, created p)
finish k v (c, existing p) = (k.on_delete v c, existing p)
finish k v (c, create_failed) = (c, create_failed)
finish k v (c, invalid_argument) = (k.on_delete v c, invalid_argument)

unfoldable pub use_created : Classes → Factory → Context × Option ℕ → Context × Registered
unfolding finish use_added
use_created k f (c, none) = (c, create_failed)
use_created k f (c, some v) = finish k v (use_added c f v)

unfoldable pub use_first : Classes → Factory → Context → Option Service → Context × Registered
unfolding use_created
use_first k f c (some p) = (c, existing p)
use_first k f c none = use_created k f (k.create f c)

unfoldable pub use_service_impl : Classes → Factory → Context → Context × Registered
unfolding use_first
use_service_impl k f c = use_first k f c (find_impl c.services f.t0)

unfoldable pub make_created : Classes → Factory → Context × Option ℕ → Context × Registered
unfolding finish make_added
make_created k f (c, none) = (c, create_failed)
make_created k f (c, some v) = finish k v (make_added c f v)

unfoldable pub make_service_impl : Classes → Factory → Context → Context × Registered
unfolding make_created
make_service_impl k f c =
    if is_taken c f then (c, invalid_argument) else make_created k f (k.create f c)

unfoldable pub begin_shutdown : Context → Context
begin_shutdown c = record c { shutdown_ = true }

-- The loop of `shutdown`; a service that is added meanwhile comes before those of the loop.
unfoldable pub shutdown_loop : Classes → List Service → Context → Context
unfolding stop
shutdown_loop k [] c = c
shutdown_loop k (p ∷ ps) c = shutdown_loop k ps (k.on_shutdown p.address (stop c p.address))

unfoldable pub shutdown : Classes → Context → Context
unfolding shutdown_loop begin_shutdown
shutdown k c = if c.shutdown_ then c else shutdown_loop k c.services (begin_shutdown c)

-- A round of the loop of `destroy`, up to the service's destructor.
unfoldable pub take_service : Context → Service → List Service → Context
unfolding delete
take_service c p ps = delete (record c { services = ps }) p.address

-- The loop of `destroy`, on fuel, by the services that are left.
unfoldable pub destroy_loop : Classes → ℕ → List Service → Context → Option Context
unfolding take_service
destroy_loop k n [] c = some (record c { destroyed_ = true })
destroy_loop k zero (p ∷ ps) c = none
destroy_loop k (suc n) (p ∷ ps) c =
    let next = k.on_delete p.address (take_service c p ps) in destroy_loop k n next.services next

unfoldable pub destroy : Classes → ℕ → Context → Option Context
unfolding destroy_loop
destroy k n c = destroy_loop k n c.services c

-- `~execution_context`.
unfoldable pub destroy_context : Classes → ℕ → Context → Option Context
unfolding shutdown destroy
destroy_context k n c = destroy k n (shutdown k c)
