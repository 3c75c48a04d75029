-- ===== src/Orm/Write/Versions.antt =====
-- orm/orm.go: optimisticLockingInfo, and the increment of a version in its type's width.
use dorm.Prelude.{
  ℕ, ◌+◌, ◌%◌, ◌-◌, leb, Bool, true, false, ◌&&◌, Option, none, some, List, [], ◌∷◌, Text,
  if◌then◌else◌,
}
use dorm.Value.{
  Any, IntType, num, int8, int16, int32, uint, uint8, uint16, uint32, uint64, ℤ, pos, negsuc,
}
use dorm.Schema.Types.{Column, Table}
use dorm.Orm.Write.Models.{Runtime, Model, field_by_column}

version_loop : List Column → Option Column
version_loop [] = none
version_loop (col ∷ cols) = let rest = version_loop cols in if col.version then some col else rest

version_column : Table → Option Column
unfolding version_loop
version_column table = version_loop table.columns

-- `OptimisticLockingInfo` without its report-only fields.
pub record VersionInfo : Type 0 where
  pub column : Text
  pub current : Any
  pub next : Any

-- The width of an integer type, and whether it is signed; `int` and `uint` have 64 bits.
abbrev modulus : IntType → ℕ
modulus int8 = 0x100
modulus uint8 = 0x100
modulus int16 = 0x10000
modulus uint16 = 0x10000
modulus int32 = 0x100000000
modulus uint32 = 0x100000000
modulus _ = 0x10000000000000000

abbrev is_signed : IntType → Bool
is_signed uint = false
is_signed uint8 = false
is_signed uint16 = false
is_signed uint32 = false
is_signed uint64 = false
is_signed _ = true

-- The integer of a type whose two's complement is `n`.
abbrev wrap_int : IntType → ℕ → ℤ
wrap_int t n =
    let m = n % modulus t in
    if is_signed t && leb (modulus t) (m + m) then negsuc (modulus t - m - 1) else pos m

-- `current + 1` in the integer's type.
increment : IntType → ℤ → ℤ
increment t (pos n) = wrap_int t (n + 1)
increment t (negsuc n) = wrap_int t (modulus t - n)

unfoldable pub increment_version_value : Any → Option Any
unfolding increment
increment_version_value (some (num t n)) = some (some (num t (increment t n)))
increment_version_value _ = none

or_nil : Option Any → Any
or_nil none = none
or_nil (some v) = v

unfoldable pub optimistic_locking_info : Runtime → Table → Model → Option VersionInfo
unfolding version_column field_by_column increment_version_value or_nil
optimistic_locking_info rt table m = elim (version_column table) [
  | none ↦ none
  | some col ↦
      let current = or_nil (field_by_column rt m col.name) in
      some (record {
        column = col.name;
        current = current;
        next = or_nil (increment_version_value current);
      })
]
