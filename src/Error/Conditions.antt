-- ===== src/Error/Conditions.antt =====
-- src/error.cpp and src/cond.cpp: the two categories, and the comparison that std::error_code makes
-- through them. What the category of another code makes of a code and a condition, by its virtual
-- `equivalent(int, error_condition)`, is the parameter `system`.
pub mod Compare
use Prim.Native.String.{String}
use capy.Base.{ℕ, Bool, true, false, ◌||◌, Option, none, some, ◌==◌, if◌then◌else◌}
use capy.Error.{Error, Cond, Errc, ErrorCode, capy_error, generic, other}
use capy.Error.Errc.{operation_canceled, timed_out, invalid_argument}

-- `std::error_condition`: a condition of the library, one of `std::errc`, a code of the library's
-- own category, or some other.
pub data Condition : Type 0 where
  portable : Cond → Condition
  generic_condition : Errc → Condition
  library : ℕ → Condition
  foreign : ℕ → Condition

unfoldable pub error_value : Error → ℕ
error_value Error.eof = 1
error_value Error.canceled = 2
error_value Error.test_failure = 3
error_value Error.stream_truncated = 4
error_value Error.timeout = 5

unfoldable pub cond_value : Cond → ℕ
cond_value Cond.eof = 1
cond_value Cond.canceled = 2
cond_value Cond.stream_truncated = 3
cond_value Cond.timeout = 4

-- `error_cat_type::message`: the switch compares the code with the enumerators.
unfoldable pub error_message : ℕ → String
unfolding error_value
error_message code =
    if code == error_value Error.eof
    then "eof"
    else if code == error_value Error.canceled
    then "operation canceled"
    else if code == error_value Error.test_failure
    then "test failure"
    else if code == error_value Error.stream_truncated
    then "stream truncated"
    else if code == error_value Error.timeout
    then "timeout"
    else "unknown"

-- `cond_cat_type::message`.
unfoldable pub cond_message : ℕ → String
unfolding cond_value
cond_message code =
    if code == cond_value Cond.eof
    then "end of file"
    else if code == cond_value Cond.canceled
    then "operation canceled"
    else if code == cond_value Cond.stream_truncated
    then "stream truncated"
    else if code == cond_value Cond.timeout
    then "operation timed out"
    else "unknown"

-- `error_cat_type::default_error_condition`.
unfoldable pub default_error_condition : ℕ → Condition
unfolding error_value
default_error_condition code =
    if code == error_value Error.eof
    then portable Cond.eof
    else if code == error_value Error.canceled
    then generic_condition operation_canceled
    else if code == error_value Error.stream_truncated
    then portable Cond.stream_truncated
    else if code == error_value Error.timeout
    then generic_condition timed_out
    else library code

abbrev pub same_errc : Errc → Errc → Bool
same_errc operation_canceled operation_canceled = true
same_errc timed_out timed_out = true
same_errc invalid_argument invalid_argument = true
same_errc a b = false

-- `std::error_code` against a code of the library.
unfoldable pub is_error : ErrorCode → Error → Bool
unfolding error_value
is_error (capy_error a) b = error_value a == error_value b
is_error (generic e) b = false
is_error (other n) b = false

-- Equality of conditions.
unfoldable pub same_condition : Condition → Condition → Bool
unfolding cond_value
same_condition (portable a) (portable b) = cond_value a == cond_value b
same_condition (generic_condition a) (generic_condition b) = same_errc a b
same_condition (library m) (library n) = m == n
same_condition a b = false

module _ (system : ℕ → Condition → Bool) where
  -- A code's category decides by `equivalent(code, condition)`: the library's and the generic one by
  -- the code's default condition.
  unfoldable pub has_condition : ErrorCode → Condition → Bool
  unfolding default_error_condition error_value same_condition
  has_condition (capy_error e) c = same_condition (default_error_condition (error_value e)) c
  has_condition (generic e) c = same_condition (generic_condition e) c
  has_condition (other n) c = system n c

  -- `std::error_code` against `std::errc`; the generic category has no code but its own for it.
  unfoldable pub is_errc : ErrorCode → Errc → Bool
  unfolding has_condition
  is_errc ec e = has_condition ec (generic_condition e)

  -- `cond_cat_type::equivalent`.
  unfoldable pub equivalent : ErrorCode → ℕ → Bool
  unfolding is_error is_errc cond_value
  equivalent ec condition =
      if condition == cond_value Cond.eof
      then is_error ec Error.eof
      else if condition == cond_value Cond.canceled
      then (if is_error ec Error.canceled
          then true
          else if is_errc ec operation_canceled
          then true
          else false)
      else if condition == cond_value Cond.stream_truncated
      then is_error ec Error.stream_truncated
      else if condition == cond_value Cond.timeout
      then (if is_error ec Error.timeout
          then true
          else if is_errc ec timed_out
          then true
          else false)
      else false

  -- `ec == cond`: as the code's category has it, or as the condition's has it.
  unfoldable pub compares : ErrorCode → Cond → Bool
  unfolding has_condition equivalent cond_value
  compares ec c = has_condition ec (portable c) || equivalent ec (cond_value c)
