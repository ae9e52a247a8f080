-- ===== src/Counters/Window.antt =====
-- `DatagramReplayWindow` of lib/private/counters.js: a sliding window of accepted counters, held
-- as a bitmap whose digit i stands for the counter i below the highest. A BigInt is a number.
pub mod Seen
pub mod Laws
pub mod Refine
pub mod Run
use Prim.Native.Nat.{bit_and, bit_or}
use hyperdht.Prelude.{
  ℕ, ◌+◌, ◌-◌, ◌*◌, ◌^◌, Bool, true, false, Option, none, some, leb, ltb, ◌==◌, if◌then◌else◌,
}
use hyperdht.Errors.{Result, ok, err, counter_exhausted, replay, ◌>>=◌}
use hyperdht.Values.{Value, Property, absent, Options}
use hyperdht.Counters.{
  options_object, option, counter_value, counter_maximum, window_size, rotation_at,
}

pub record Window : Type 0 where
  pub window : ℕ
  pub mask : ℕ
  pub highest : Option ℕ
  pub maximum : ℕ
  pub rotate_at : ℕ
  pub bitmap : ℕ
  pub closed : Bool

pub record WindowOptions : Type 0 where
  pub window : Property
  pub maximum : Property

abbrev no_options : WindowOptions
no_options = record { window = absent; maximum = absent }

-- `new DatagramReplayWindow(options)`
unfoldable pub construct : Options WindowOptions → Result Window
construct given = do
  options ← options_object given false no_options
  size ← option options.window true
  window ← window_size size
  chosen ← option options.maximum false
  maximum ← counter_maximum chosen
  ok (record {
    window = window;
    mask = 2 ^ window - 1;
    highest = none;
    maximum = maximum;
    rotate_at = rotation_at maximum;
    bitmap = 0;
    closed = false;
  })

-- `get floor()`
abbrev pub floor_below : ℕ → ℕ → ℕ
floor_below window highest = if ltb highest window then 0 else highest - window + 1

pub floor : Window → ℕ
floor w = elim w.highest [ none ↦ 0 | some h ↦ floor_below w.window h ]

pub needs_rotation : Window → Bool
needs_rotation w = elim w.highest [ none ↦ false | some h ↦ leb w.rotate_at h ]

-- `acceptAuthenticated` when a counter was accepted before, so `highest` is not null.
pub accept_after : ℕ → ℕ → Window → Window × Result Bool
accept_after counter highest w =
    if ltb highest counter
    then (
      record w {
        bitmap =
            if leb w.window (counter - highest)
            then 1
            else bit_and (bit_or (w.bitmap * 2 ^ (counter - highest)) 1) w.mask;
        highest = some counter;
        closed = if counter == w.maximum then true else w.closed;
      },
      ok true,
    )
    else if ltb counter (floor_below w.window highest)
    then (w, err replay)
    else if bit_and w.bitmap (2 ^ (highest - counter)) == 0
    then (record w { bitmap = bit_or w.bitmap (2 ^ (highest - counter)) }, ok true)
    else (w, err replay)

-- The first counter.
abbrev accept_first : ℕ → Window → Window × Result Bool
accept_first counter w = (
  record w {
    highest = some counter;
    bitmap = 1;
    closed = if counter == w.maximum then true else w.closed;
  },
  ok true,
)

accept_counter : ℕ → Window → Window × Result Bool
accept_counter counter w =
    if w.closed
    then (w, err counter_exhausted)
    else elim w.highest [ none ↦ accept_first counter w | some h ↦ accept_after counter h w ]

-- `acceptAuthenticated(value)`
pub accept : Window → Value → Window × Result Bool
accept w v = elim (counter_value v w.maximum) [
  | ok counter ↦ accept_counter counter w
  | err e ↦ (w, err e)
]

pub destroy : Window → Window
destroy w = record w { highest = none; bitmap = 0; closed = true }
