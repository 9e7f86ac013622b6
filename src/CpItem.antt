-- ===== src/CpItem.antt =====
-- The item of include/shv/cp.h that packers take and unpackers fill.
use shvc.Base.{ℕ, Bool, Option, none, List, ℤ}

-- enum cperror; `no_error` is CPERR_NONE.
pub data CpError : Type 0 where
  no_error eof io invalid overflow : CpError

-- struct cpbufinfo; each CPBI_F_* flag is a field of its own.
pub record BufInfo : Type 0 where
  pub len : ℕ
  pub eoff : ℕ
  pub first : Bool
  pub last : Bool
  pub stream : Bool
  pub hex : Bool

-- enum cpitem_type with the member of `union cpitem_as` that goes with it. A double is its 64-bit
-- pattern.
pub data Value : Type 0 where
  invalid : CpError → Value
  null : Value
  bool : Bool → Value
  int : ℤ → Value
  uint : ℕ → Value
  double : ℕ → Value
  decimal : (mantissa exponent : ℤ) → Value
  datetime : (msecs offutc : ℤ) → Value
  blob : BufInfo → Value
  string : BufInfo → Value
  list map imap meta container_end : Value

-- struct cpitem; `buf` is the memory behind the pointer (`rbuf`, `chr` and `rchr` are the same
-- pointer), and `none` is NULL.
pub record CpItem : Type 0 where
  pub value : Value
  pub buf : Option (List ℕ)
  pub bufsiz : ℕ

-- cpitem_unpack_init.
unfoldable pub unpack_init : CpItem
unpack_init = record { value = Value.invalid no_error; buf = none; bufsiz = 0 }
