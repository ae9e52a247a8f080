-- ===== src/Ledger.antt =====
-- lib/private/peer-ledger.js: checks, rows of amounts, and the child modules for its parts.
-- Numbers are exact. A Number of the source that passes 2 ^ 53 loses digits, but every result that
-- is above 2 ^ 32 - 1 is refused.
pub mod Budget
pub mod Accounts
pub mod Memory
pub mod Branches
pub mod Narrow
mod Tests
use hyperdht.Prelude.{
  ℕ, ◌+◌, ◌-◌, ◌^◌, ◌≤◌, ◌≡◌, refl, Bool, true, false, ◌&&◌, ◌||◌, arith, ltb, if◌then◌else◌,
}
use hyperdht.Prelude.Int.{pos}
use hyperdht.Errors.{Result, ok, err, invalid_route, ◌>>=◌}
use hyperdht.Values.{Value, boolean, bigint, integer}

abbrev pub max_u32 : ℕ
max_u32 = 0xffff_ffff

abbrev pub max_u64 : ℕ
max_u64 = 0xffff_ffff_ffff_ffff

abbrev pub cell_size : ℕ
cell_size = 1200

-- An options argument read property by property: an object whose properties are own values, or
-- anything else, which `exactKeys`, `isObject` and `ownProp` refuse.
pub data Exact {ℓ} (P : Type ℓ) : Type ℓ where
  inexact : Exact P
  exact : P → Exact P

abbrev pub properties {ℓ} : {P : Type ℓ} → Exact P → Result P
properties inexact = err invalid_route
properties (exact p) = ok p

-- `checkU32(val)`, `checkU64(val)`, `checkBool(val)`
abbrev pub check_u32 : Value → Result ℕ
check_u32 (integer (pos n)) = if ltb max_u32 n then err invalid_route else ok n
check_u32 _ = err invalid_route

abbrev pub check_u64 : Value → Result ℕ
check_u64 (bigint (pos n)) = if ltb max_u64 n then err invalid_route else ok n
check_u64 _ = err invalid_route

abbrev pub check_bool : Value → Result Bool
check_bool (boolean b) = ok b
check_bool _ = err invalid_route
