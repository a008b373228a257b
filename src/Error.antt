-- ===== src/Error.antt =====
-- include/boost/capy/error.hpp and cond.hpp, src/error.cpp and src/cond.cpp: the library's error
-- codes, the portable conditions, and how the two are compared.
pub mod Conditions
use capy.Base.{ℕ, Bool, true, false, Option, none, some}

pub data Error : Type 0 where
  eof canceled test_failure stream_truncated timeout : Error

pub data Cond : Type 0 where
  eof canceled stream_truncated timeout : Cond

-- The values of `std::errc` that the library names.
pub data Errc : Type 0 where
  operation_canceled timed_out invalid_argument : Errc

-- An error code that is not zero: one of the library's, one of `std::errc`, or some other.
pub data ErrorCode : Type 0 where
  capy_error : Error → ErrorCode
  generic : Errc → ErrorCode
  other : ℕ → ErrorCode

-- `std::error_code`; `none` is zero, which converts to `false`.
abbrev pub Ec : Type 0
Ec = Option ErrorCode

-- `explicit operator bool`.
abbrev pub is_set : Ec → Bool
is_set none = false
is_set (some _) = true
