-- ===== src/Values.antt =====
-- The values of JavaScript that the checks of lib/private tell apart, and the outcome of reading a
-- property of an options object through its descriptor.
use hyperdht.Prelude.{ℕ, Bool, ◌^◌, ◌-◌}
use hyperdht.Prelude.Int.{ℤ}

-- `integer` is a Number for which `Number.isInteger` holds; `fractional` is any other Number.
pub data Value : Type 0 where
  undefined : Value
  boolean : Bool → Value
  bigint : ℤ → Value
  integer : ℤ → Value
  fractional : Value
  function : Value
  other : Value

-- `hidden`: reading the descriptor throws. `inherited`: no own property, but `name in object`.
pub data Property : Type 0 where
  absent inherited hidden accessor : Property
  own : Value → Property

-- An options argument: not given, not a plain object (or throwing when inspected), or an object.
pub data Options {ℓ} (P : Type ℓ) : Type ℓ where
  omitted : Options P
  malformed : Options P
  object : P → Options P

abbrev pub max_safe_integer : ℕ
max_safe_integer = 2 ^ 53 - 1
