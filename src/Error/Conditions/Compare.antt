-- ===== src/Error/Conditions/Compare.antt =====
-- What the comparisons of error codes come to.
use capy.Base.{ℕ, ◌≡◌, refl, ap, Bool, true, false, ◌||◌, ◌==◌, if◌then◌else◌, Option, none, some}
use capy.Error.{Error, Cond, Errc, ErrorCode, capy_error, generic, other}
use capy.Error.Errc.{operation_canceled, timed_out, invalid_argument}
use capy.Error.Conditions.{
  error_value, cond_value, Condition, portable, generic_condition, error_message, cond_message,
  default_error_condition, equivalent, compares, library,
}

-- The condition that stands for an error of the library.
abbrev pub cond_of : Error → Option Cond
cond_of Error.eof = some Cond.eof
cond_of Error.canceled = some Cond.canceled
cond_of Error.test_failure = none
cond_of Error.stream_truncated = some Cond.stream_truncated
cond_of Error.timeout = some Cond.timeout

abbrev pub cond_of_errc : Errc → Option Cond
cond_of_errc operation_canceled = some Cond.canceled
cond_of_errc timed_out = some Cond.timeout
cond_of_errc invalid_argument = none

abbrev pub is_cond : Option Cond → Cond → Bool
is_cond none c = false
is_cond (some Cond.eof) Cond.eof = true
is_cond (some Cond.canceled) Cond.canceled = true
is_cond (some Cond.stream_truncated) Cond.stream_truncated = true
is_cond (some Cond.timeout) Cond.timeout = true
is_cond (some a) c = false

-- The value of `std::errc` for a condition.
abbrev pub errc_of : Cond → Option Errc
errc_of Cond.eof = none
errc_of Cond.canceled = some operation_canceled
errc_of Cond.stream_truncated = none
errc_of Cond.timeout = some timed_out

abbrev pub has_errc : (Condition → Bool) → Option Errc → Bool
has_errc p none = false
has_errc p (some e) = p (generic_condition e)

-- Whether a code stands for a condition.
unfoldable pub stands_for : (ℕ → Condition → Bool) → ErrorCode → Cond → Bool
stands_for system (capy_error e) c = is_cond (cond_of e) c
stands_for system (generic e) c = is_cond (cond_of_errc e) c
stands_for system (other n) c = system n (portable c) || has_errc (system n) (errc_of c)

compares_library :
    (system : ℕ → Condition → Bool) (e : Error) (c : Cond)
    → compares system (capy_error e) c ≡ is_cond (cond_of e) c
unfolding compares
compares_library system Error.eof Cond.eof = refl
compares_library system e Cond.eof = refl
compares_library system Error.eof Cond.canceled = refl
compares_library system e Cond.canceled = refl
compares_library system Error.eof Cond.stream_truncated = refl
compares_library system e Cond.stream_truncated = refl
compares_library system Error.eof Cond.timeout = refl
compares_library system e Cond.timeout = refl

compares_generic :
    (system : ℕ → Condition → Bool) (e : Errc) (c : Cond)
    → compares system (generic e) c ≡ is_cond (cond_of_errc e) c
unfolding compares
compares_generic system operation_canceled Cond.eof = refl
compares_generic system e Cond.eof = refl
compares_generic system operation_canceled Cond.canceled = refl
compares_generic system e Cond.canceled = refl
compares_generic system operation_canceled Cond.stream_truncated = refl
compares_generic system e Cond.stream_truncated = refl
compares_generic system operation_canceled Cond.timeout = refl
compares_generic system e Cond.timeout = refl

if_true : (b : Bool) → (if b then true else false) ≡ b
if_true false = refl
if_true true = refl

compares_foreign :
    (system : ℕ → Condition → Bool) (n : ℕ) (c : Cond)
    → compares system (other n) c ≡ stands_for system (other n) c
unfolding compares stands_for
compares_foreign system n Cond.eof = refl
compares_foreign system n Cond.canceled =
    ap (λ b. system n (portable Cond.canceled) || b)
      (if_true (system n (generic_condition operation_canceled)))
compares_foreign system n Cond.stream_truncated = refl
compares_foreign system n Cond.timeout =
    ap (λ b. system n (portable Cond.timeout) || b)
      (if_true (system n (generic_condition timed_out)))

-- An error code compares equal to a condition of the library exactly when it stands for it: an
-- error of the library for the condition of its name, which only test_failure has not;
-- operation_canceled and timed_out of the standard library for canceled and timeout; and a code of
-- any other category, such as an end of stream of TLS, for the conditions that its category finds
-- it equivalent to, and for canceled or timeout also if its category finds it equivalent to
-- operation_canceled or timed_out.
pub compares-stands_for :
    (system : ℕ → Condition → Bool) (ec : ErrorCode) (c : Cond)
    → compares system ec c ≡ stands_for system ec c
unfolding stands_for
compares-stands_for system (capy_error e) c = compares_library system e c
compares-stands_for system (generic e) c = compares_generic system e c
compares-stands_for system (other n) c = compares_foreign system n c

-- A number that is no enumerator's value has the message "unknown" in both categories, stays a code
-- of the library's category as its own condition, and as a condition is equivalent to no error
-- code on any platform.
pub unknown_code :
    (system : ℕ → Condition → Bool) (code : ℕ) (ec : ErrorCode)
    → ((e : Error) → (code == error_value e) ≡ false)
    → ((c : Cond) → (code == cond_value c) ≡ false)
    → (error_message code ≡ "unknown")
      × (default_error_condition code ≡ library code)
      × (cond_message code ≡ "unknown")
      × (equivalent system ec code ≡ false)
unfolding error_message default_error_condition cond_message equivalent
unknown_code system code ec h k = (
  rw
      (
        error_message,
        h Error.eof,
        h Error.canceled,
        h Error.test_failure,
        h Error.stream_truncated,
        h Error.timeout,
      )
      refl,
  rw
      (
        default_error_condition,
        h Error.eof,
        h Error.canceled,
        h Error.stream_truncated,
        h Error.timeout,
      )
      refl,
  rw (cond_message, k Cond.eof, k Cond.canceled, k Cond.stream_truncated, k Cond.timeout) refl,
  rw (equivalent, k Cond.eof, k Cond.canceled, k Cond.stream_truncated, k Cond.timeout) refl,
)
