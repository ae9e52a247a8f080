-- ===== src/Counters/Receiver/Construct.antt =====
-- The constructor of `OrderedReceiver`.
use hyperdht.Prelude.{ℕ, Bool, true, false, none, [], ◌≡◌, arith}
use hyperdht.Errors.{Result, ok, err, counter_invalid, ◌>>=◌, ◌>>◌}
use hyperdht.Values.{Value, undefined, function, Property, absent, Options}
use hyperdht.Counters.{
  options_object, option, counter_value, counter_maximum, window_size, rotation_at, time_value,
  or_zero,
}
use hyperdht.Counters.Receiver.{Receiver}

pub record ReceiverOptions : Type 0 where
  pub window : Property
  pub gap_timeout : Property
  pub now : Property
  pub initial : Property
  pub maximum : Property
  pub observe_buffered : Property

abbrev no_options : ReceiverOptions
no_options = record {
  window = absent;
  gap_timeout = absent;
  now = absent;
  initial = absent;
  maximum = absent;
  observe_buffered = absent;
}

-- `typeof now !== 'function'`
abbrev need_function : Value → Result (Unit {0})
need_function function = ok tt
need_function v = err counter_invalid

-- The observer is a function or undefined.
abbrev observer_given : Value → Result Bool
observer_given undefined = ok false
observer_given function = ok true
observer_given v = err counter_invalid

abbrev start : ℕ → ℕ → ℕ → ℕ → Bool → Receiver
start window gap_timeout maximum next has_observer = record {
  window = window;
  gap_timeout = gap_timeout;
  maximum = maximum;
  rotate_at = rotation_at maximum;
  next = next;
  buffer = [];
  gap_started_at = none;
  last_observed_at = none;
  closed = false;
  mutating = false;
  destroy_requested = false;
  has_observer = has_observer;
}

-- `new OrderedReceiver(options)`
unfoldable pub construct : Options ReceiverOptions → Result Receiver
construct given = do
  options ← options_object given false no_options
  size ← option options.window true
  timeout ← option options.gap_timeout true
  now ← option options.now true
  configured ← option options.initial false
  observer ← option options.observe_buffered false
  window ← window_size size
  gap_timeout ← time_value timeout
  need_function now
  has_observer ← observer_given observer
  chosen ← option options.maximum false
  maximum ← counter_maximum chosen
  next ← counter_value (or_zero configured) maximum
  ok (start window gap_timeout maximum next has_observer)

pub construct_parts :
    (given : Options ReceiverOptions) (r : Receiver)
    → construct given ≡ ok r
    → (r.buffer ≡ []) × (r.destroy_requested ≡ false)
unfolding construct
construct_parts given r e = ground arith
