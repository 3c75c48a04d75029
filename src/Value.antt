-- ===== src/Value.antt =====
-- Go values of type `any`, as the ORM passes them to the driver: `none` is the nil interface.
use dorm.Prelude.{ℕ, Bool, Option, Text}

-- `negsuc n` is -(n + 1).
pub data ℤ : Type 0 where
  pos : ℕ → ℤ
  negsuc : ℕ → ℤ

-- The integer types that `incrementVersionValue` knows.
pub data IntType : Type 0 where
  int int8 int16 int32 int64 uint uint8 uint16 uint32 uint64 : IntType

-- `opaque n z` is a value of any other type; `z` says whether it is the zero value of its type.
pub data Value : Type 0 where
  str : Text → Value
  num : IntType → ℤ → Value
  flag : Bool → Value
  time : ℕ → Value
  opaque : ℕ → Bool → Value

abbrev pub Any : Type 0
Any = Option Value
