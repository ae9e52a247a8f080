-- ===== src/Counters/Tests.antt =====
-- Runs of the counters, and the theorems about them at concrete inputs.
use hyperdht.Prelude.{ℕ, ◌≡◌, refl, false, none, some, List, [], ◌∷◌, arith, get_elem?, length}
use hyperdht.Prelude.Int.{pos}
use hyperdht.Errors.{ok}
use hyperdht.Values.{Value, bigint, integer, function, own, absent, undefined, object, Options}
use hyperdht.Counters.Sender
use hyperdht.Counters.Sender.{Sender, SenderOptions}
use hyperdht.Counters.Window
use hyperdht.Counters.Window.{Window, WindowOptions}
use hyperdht.Counters.Window.Seen.{Once, decide_run}
use hyperdht.Counters.Window.Run.{accept_run, taken, accept_run-decide_run, accept-Once}
use hyperdht.Counters.Receiver.{Receiver, Payload, text, Reading, Observation}
use hyperdht.Counters.Receiver.Construct.{ReceiverOptions}
use hyperdht.Counters.Receiver.Construct
use hyperdht.Counters.Receiver.Order.{stream}
use hyperdht.Counters.Receiver.Delivery.{Call, pushes, expires, received, received-stream}

abbrev short_sender : Options SenderOptions
short_sender = object (record { initial = own (bigint (pos 6)); maximum = own (bigint (pos 7)) })

abbrev sender : Sender
sender = record { value = 6; maximum = 7; rotate_at = 0; closed = false }

emit-get_elem?_example : get_elem? (Sender.emit 4 sender) 1 ≡ some (ok 7)
unfolding Sender.construct
emit-get_elem?_example = Sender.emit-get_elem? short_sender sender 4 1 refl (omega arith)

abbrev small_window : Options WindowOptions
small_window = object (record { window = own (integer (pos 4)); maximum = absent })

abbrev window : Window
window = record {
  window = 4;
  mask = 15;
  highest = none;
  maximum = 18446744073709551615;
  rotate_at = 18446744073709550591;
  bitmap = 0;
  closed = false;
}

abbrev arrivals : List Value
arrivals =
    bigint (pos 5)
    ∷ bigint (pos 3)
    ∷ bigint (pos 3)
    ∷ bigint (pos 1)
    ∷ bigint (pos 9)
    ∷ undefined
    ∷ []

accept_run-decide_run_example :
    accept_run window arrivals ≡ decide_run 4 18446744073709551615 [] arrivals
unfolding Window.construct
accept_run-decide_run_example = accept_run-decide_run small_window window arrivals refl

accept-Once_example : Once (taken [] window arrivals)
unfolding Window.construct
accept-Once_example = accept-Once small_window window arrivals refl

abbrev receiver_options : Options ReceiverOptions
receiver_options = object (record {
  window = own (integer (pos 4));
  gap_timeout = own (integer (pos 100));
  now = own function;
  initial = absent;
  maximum = own (bigint (pos 50));
  observe_buffered = absent;
})

abbrev receiver : Receiver
receiver = record {
  window = 4;
  gap_timeout = 100;
  maximum = 50;
  rotate_at = 0;
  next = 0;
  buffer = [];
  gap_started_at = none;
  last_observed_at = none;
  closed = false;
  mutating = false;
  destroy_requested = false;
  has_observer = false;
}

abbrev message : ℕ → Payload
message c = text (c ∷ [])

abbrev at : ℕ → Reading
at t = record { value = some (integer (pos t)); destroys = false }

abbrev calm : Observation
calm = record { throws = false; destroys = false }

abbrev calls : List Call
calls =
    pushes 2 (at 10) calm
    ∷ pushes 1 (at 20) calm
    ∷ expires undefined (at 30)
    ∷ pushes 0 (at 40) calm
    ∷ pushes 3 (at 50) calm
    ∷ []

received-stream_example :
    received message receiver calls ≡ stream message 0 (length (received message receiver calls))
unfolding Construct.construct
received-stream_example = received-stream message receiver_options receiver calls refl

abbrev waiting : Receiver
waiting = record receiver {
  buffer = (1, message 1) ∷ [];
  gap_started_at = some 10;
  last_observed_at = some 10;
}
