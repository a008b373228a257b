-- ===== src/Testing/Fuse/Armed.antt =====
-- `fuse::armed` and `fuse::inert` for test functions that use the fuse, and only it, as a program:
-- a tree of its calls. The coroutine overloads run the same rounds through a runner.
pub mod Runs
pub mod Rounds
use capy.Base.{
  ℕ, zero, suc, Bool, true, false, not, ◌&&◌, ◌||◌, Option, none, some, ◌==◌, if◌then◌else◌,
  size_max,
}
use capy.Error.{Error, ErrorCode, Ec, capy_error, generic, other}
use capy.Error.Conditions.{error_value, same_errc}
use capy.Testing.Fuse.{Fuse, another, Outcome, returned, thrown, thrown_other, maybe_fail, fail}

-- A test function: it returns, throws a std::system_error or something else, calls `maybe_fail` at a
-- source location and goes on with the code, or calls `fail` and goes on.
pub data Program : Type 0 where
  finish : Program
  raise : ErrorCode → Program
  raise_other : ℕ → Program
  call : ℕ → (Ec → Program) → Program
  signal : Option ℕ → ℕ → Program → Program

-- An exception of `maybe_fail` leaves the test function.
unfoldable pub after_call :
    (Ec → Fuse → Fuse × Outcome (Unit {0})) → Fuse × Outcome Ec → Fuse × Outcome (Unit {0})
after_call next (t, returned ec) = next ec t
after_call next (t, thrown e) = (t, thrown e)
after_call next (t, thrown_other n) = (t, thrown_other n)

unfoldable pub run : Program → Fuse → Fuse × Outcome (Unit {0})
unfolding maybe_fail fail after_call
run finish s = (s, returned tt)
run (raise e) s = (s, thrown e)
run (raise_other n) s = (s, thrown_other n)
run (call loc next) s = after_call (λ ec. run (next ec)) (maybe_fail s loc)
run (signal ep loc next) s = run next (fail s ep loc)

-- `std::error_code` equality.
unfoldable pub same_code : ErrorCode → ErrorCode → Bool
unfolding error_value
same_code (capy_error a) (capy_error b) = error_value a == error_value b
same_code (generic a) (generic b) = same_errc a b
same_code (other m) (other n) = m == n
same_code a b = false

-- Whether a round that ended so fails the test: in the first phase any exception does, in the
-- second any but the injected one.
unfoldable pub failed : Bool → ErrorCode → Outcome (Unit {0}) → Bool
unfolding same_code
failed throws ec (returned _) = false
failed false ec (thrown e) = true
failed true ec (thrown e) = not (same_code e ec)
failed throws ec (thrown_other n) = true

-- `fuse::result`.
pub record Result : Type 0 where
  pub loc : ℕ
  pub ep : Option ℕ
  pub success : Bool

pub data Verdict : Type 0 where
  clean : Verdict
  broken : Result → Verdict
  out_of_fuel : Verdict

-- A phase of `armed`, from the state behind its assignments.
unfoldable pub phase : Bool → ℕ → Program → Fuse → Fuse × Verdict
unfolding another run failed
phase mode zero p s = (s, out_of_fuel)
phase mode (suc fuel) p s =
    let (t, more) = another s in
    let (u, o) = run p t in
    let rest = phase mode fuel p u in
    if more
    then (if failed mode u.ec o || u.stopped
        then (
          record u { inert = true },
          broken (record { loc = u.loc; ep = u.ep; success = false }),
        )
        else rest)
    else (t, clean)

unfoldable pub first_phase : ℕ → Program → Fuse → Fuse × Verdict
unfolding phase
first_phase fuel p s = phase false fuel p (record s { throws = false; inert = false; n = size_max })

unfoldable pub second_phase : ℕ → Program → Fuse → Fuse × Verdict
unfolding phase
second_phase fuel p s =
    phase true fuel p (record s { throws = true; n = size_max; i = 0; triggered = false })

-- `none` means that the fuel ran out.
abbrev pub ended : Fuse × Verdict → Fuse × Option Result
ended (s, clean) = (record s { inert = true }, some (record { loc = 0; ep = none; success = true }))
ended (s, broken r) = (s, some r)
ended (s, out_of_fuel) = (s, none)

-- What the second phase does with the outcome of the first.
unfoldable pub go_on : ℕ → Program → Fuse × Verdict → Fuse × Option Result
unfolding second_phase
go_on fuel p (s, clean) = ended (second_phase fuel p s)
go_on fuel p (s, broken r) = (s, some r)
go_on fuel p (s, out_of_fuel) = (s, none)

unfoldable pub armed : ℕ → Program → Fuse → Fuse × Option Result
unfolding first_phase go_on
armed fuel p s = go_on fuel p (first_phase fuel p s)

-- `inert` for a test that returned or threw `o`; an exception of its own is the result's.
unfoldable pub inert_done :
    (Outcome (Unit {0}) → Option ℕ) → Fuse × Outcome (Unit {0}) → Fuse × Result
inert_done current (s, returned _) = (
  s,
  if s.stopped
      then record { loc = s.loc; ep = s.ep; success = false }
      else record { loc = 0; ep = none; success = true },
)
inert_done current (s, o) = (s, record { loc = s.loc; ep = current o; success = false })

unfoldable pub inert : (Outcome (Unit {0}) → Option ℕ) → Program → Fuse → Fuse × Result
unfolding run inert_done
inert current p s = inert_done current (run p (record s { inert = true }))
