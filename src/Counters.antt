-- ===== src/Counters.antt =====
-- lib/private/counters.js: the checks that its three classes share. A class is a child module.
pub mod Sender
pub mod Window
pub mod Receiver
mod Tests
use hyperdht.Prelude.{
  ℕ, ◌-◌, ◌^◌, ◌≤◌, ◌≡◌, Bool, true, false, ◌||◌, arith, ltb, leb, if◌then◌else◌,
}
use hyperdht.Prelude.Int.{ℤ, pos, negsuc}
use hyperdht.Errors.{Result, ok, err, counter_invalid}
use hyperdht.Values.{
  Value, undefined, bigint, integer, Property, absent, inherited, hidden, accessor, own, Options,
  omitted, malformed, object, max_safe_integer,
}

abbrev pub max_counter : ℕ
max_counter = 2 ^ 64 - 1

abbrev pub max_window : ℕ
max_window = 4096

abbrev pub max_buffered_payload : ℕ
max_buffered_payload = 1146

-- `optionsObject(options, optional)`: `empty` is the object with no property.
abbrev pub options_object {ℓ} : {P : Type ℓ} → Options P → Bool → P → Result P
options_object omitted true empty = ok empty
options_object omitted false empty = err counter_invalid
options_object malformed optional empty = err counter_invalid
options_object (object p) optional empty = ok p

-- `option(options, name, required)`
abbrev pub option : Property → Bool → Result Value
option hidden required = err counter_invalid
option absent required = if required then err counter_invalid else ok undefined
option inherited required = err counter_invalid
option accessor required = err counter_invalid
option (own v) required = ok v

-- `counterValue(value, maximum)`
abbrev pub counter_value : Value → ℕ → Result ℕ
counter_value (bigint (pos n)) maximum = if ltb maximum n then err counter_invalid else ok n
counter_value _ maximum = err counter_invalid

-- `configured === undefined ? 0n : configured`
abbrev pub or_zero : Value → Value
or_zero undefined = bigint (pos 0)
or_zero v = v

-- `counterMaximum(value)`
abbrev pub counter_maximum : Value → Result ℕ
counter_maximum undefined = counter_value (bigint (pos max_counter)) max_counter
counter_maximum v = counter_value v max_counter

-- `rotationAt(maximum)`
abbrev pub rotation_at : ℕ → ℕ
rotation_at maximum = if ltb 1024 maximum then maximum - 1024 else 0

-- `windowSize(value)`
abbrev pub window_size : Value → Result ℕ
window_size (integer (pos n)) = if ltb n 1 || ltb max_window n then err counter_invalid else ok n
window_size _ = err counter_invalid

-- `isTime(value)`
abbrev pub is_time : Value → Bool
is_time (integer (pos n)) = leb n max_safe_integer
is_time _ = false

-- `timeValue(value)`
abbrev pub time_value : Value → Result ℕ
time_value (integer (pos n)) = if leb n max_safe_integer then ok n else err counter_invalid
time_value _ = err counter_invalid

pub counter_value-le : (v : Value) (m n : ℕ) → counter_value v m ≡ ok n → n ≤ m
counter_value-le v m n h = ground arith

pub counter_maximum-le : (v : Value) (m : ℕ) → counter_maximum v ≡ ok m → m ≤ max_counter
counter_maximum-le v m h = ground arith
