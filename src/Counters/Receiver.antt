-- ===== src/Counters/Receiver.antt =====
-- `OrderedReceiver` of lib/private/counters.js: payloads that arrive out of order are buffered and
-- delivered in the order of their counters.
--
-- An operation is a function from a receiver to the receiver after it and what it returns or throws;
-- writes before a throw stay. The clock and the observer are functions of the caller: what a call of
-- one does is an argument. A callback can reach the receiver by `destroy()` only, since every other
-- operation throws at once while one is running. Payloads are values: copying a buffer and
-- overwriting it by zeros are not modelled, and an allocation does not fail.
pub mod Construct
pub mod Waits
pub mod Order
pub mod History
pub mod Delivery
pub mod Next
use hyperdht.Prelude.{
  ℕ, zero, suc, ◌+◌, ◌-◌, Bool, true, false, not, ◌||◌, ◌&&◌, Option, none, some, List, [], ◌∷◌,
  ◌++◌, leb, ltb, ◌==◌, if◌then◌else◌, length,
}
use hyperdht.Prelude.Assoc.{lookup, has, delete}
use hyperdht.Errors.{
  Error, Result, ok, err, counter_exhausted, counter_gap, counter_invalid, replay,
}
use hyperdht.Errors
use hyperdht.Values.{Value, undefined, function, integer, Property, Options, absent}
use hyperdht.Counters.{
  options_object, option, counter_value, counter_maximum, window_size, rotation_at, time_value,
  is_time, or_zero, max_buffered_payload,
}

-- What a payload is for `#copyForBuffer`: a buffer, a string of so many UTF-8 bytes, anything else.
pub data Payload : Type 0 where
  buffer : List ℕ → Payload
  text : List ℕ → Payload
  other : Payload

pub record Receiver : Type 0 where
  pub window : ℕ
  pub gap_timeout : ℕ
  pub maximum : ℕ
  pub rotate_at : ℕ
  pub next : ℕ
  pub buffer : List (ℕ × Payload)
  pub gap_started_at : Option ℕ
  pub last_observed_at : Option ℕ
  pub closed : Bool
  pub mutating : Bool
  pub destroy_requested : Bool
  pub has_observer : Bool

-- A call of `now()`: what it returns (`none` if it throws), and whether it called `destroy()`.
pub record Reading : Type 0 where
  pub value : Option Value
  pub destroys : Bool

-- A call of the observer of buffered payloads.
pub record Observation : Type 0 where
  pub throws : Bool
  pub destroys : Bool

abbrev pub Op {ℓ} : Type ℓ → Type ℓ
Op A = Receiver → Receiver × Result A

infixl 5 ◌>>=◌ ◌>>◌
abbrev pub continue {ℓ κ} :
    {A : Type ℓ} {B : Type κ}
    → Receiver
    → Result A
    → (A → Receiver → Receiver × Result B)
    → Receiver × Result B
continue r (ok a) f = f a r
continue r (err e) f = (r, err e)

abbrev pub ◌>>=◌ {ℓ κ} : {A : Type ℓ} {B : Type κ} → Op A → (A → Op B) → Op B
◌>>=◌ m f r = continue (m r).0 (m r).1 f

abbrev pub ◌>>◌ {ℓ} : {B : Type ℓ} → Op (Unit {0}) → Op B → Op B
m >> k = m >>= λ _. k

abbrev pub pure {ℓ} : {A : Type ℓ} → A → Op A
pure a r = (r, ok a)

abbrev pub throw {ℓ} : {A : Type ℓ} → Error → Op A
throw e r = (r, err e)

abbrev pub lift {ℓ} : {A : Type ℓ} → Result A → Op A
lift x r = (r, x)

-- `#clearBuffered()`
abbrev pub clear_buffered : Receiver → Receiver
clear_buffered r = record r { buffer = []; gap_started_at = none; last_observed_at = none }

-- `#failGap()`, `#failInvalid()`
abbrev pub fail_gap {ℓ} : {A : Type ℓ} → Op A
fail_gap r = (
  record r { buffer = []; gap_started_at = none; last_observed_at = none; closed = true },
  err counter_gap,
)

abbrev pub fail_invalid {ℓ} : {A : Type ℓ} → Op A
fail_invalid r = (
  record r { buffer = []; gap_started_at = none; last_observed_at = none; closed = true },
  err counter_invalid,
)

-- `#closeExhausted()`
abbrev pub close_exhausted : Receiver → Receiver
close_exhausted r = record r {
  buffer = [];
  gap_started_at = none;
  last_observed_at = none;
  next = r.maximum;
  closed = true;
}

-- `#destroyNow()`
abbrev pub destroy_now : Receiver → Receiver
destroy_now r = record r {
  destroy_requested = false;
  buffer = [];
  gap_started_at = none;
  last_observed_at = none;
  next = 0;
  closed = true;
  has_observer = false;
}

-- `destroy()`
pub destroy : Receiver → Receiver
destroy r =
    if r.mutating then record r { destroy_requested = true; closed = true } else destroy_now r

pub needs_rotation : Receiver → Bool
needs_rotation r = leb r.rotate_at r.next

-- `#assertCallbackState()`, `#assertNoDeferredDestroy()`
abbrev assert_callback_state : Op (Unit {0})
assert_callback_state r =
    if r.destroy_requested || r.closed then (r, err counter_exhausted) else (r, ok tt)

abbrev pub assert_no_deferred_destroy : Op (Unit {0})
assert_no_deferred_destroy r =
    if r.destroy_requested then (r, err counter_exhausted) else (r, ok tt)

-- `#failClock()`
abbrev fail_clock {ℓ} : {A : Type ℓ} → Op A
fail_clock r = elim r.gap_started_at [ none ↦ (r, err counter_invalid) | some g ↦ fail_invalid r ]

-- `#clockValue(current)`
abbrev pub clock_value : Value → Op ℕ
clock_value v r = elim (time_value v) [ ok t ↦ (r, ok t) | err e ↦ fail_clock r ]

-- What a callback that calls `destroy()` does to the receiver.
abbrev destroyed_by : Bool → Receiver → Receiver
destroyed_by destroys r = if destroys then destroy r else r

-- `#readNow()`
pub read_now : Reading → Op ℕ
unfolding destroy
read_now reading r =
    let r' = destroyed_by reading.destroys r in
    elim reading.value [
      | none ↦ fail_clock r'
      | some v ↦ (assert_callback_state >> clock_value v) r'
    ]

-- `#expireAt(current)`
pub expire_at : ℕ → Op Bool
expire_at current r = elim r.gap_started_at [
  | none ↦ (r, ok false)
  | some started ↦
      if ltb current (elim r.last_observed_at [ none ↦ 0 | some l ↦ l ])
      then fail_invalid r
      else if ltb current (started + r.gap_timeout)
      then (record r { last_observed_at = some current }, ok false)
      else fail_gap (record r { last_observed_at = some current })
]

-- `#copyForBuffer(payload)`
pub copy_for_buffer : Payload → Op Payload
copy_for_buffer (buffer b) r =
    if ltb max_buffered_payload (length b) then fail_invalid r else (r, ok (buffer b))
copy_for_buffer (text t) r =
    if ltb max_buffered_payload (length t) then fail_invalid r else (r, ok (text t))
copy_for_buffer other r = fail_invalid r

-- `#notifyObserver(owned)`
pub notify_observer : Observation → Op (Unit {0})
unfolding destroy
notify_observer o r =
    if not r.has_observer
    then (r, ok tt)
    else if o.throws
    then fail_invalid (destroyed_by o.destroys r)
    else assert_callback_state (destroyed_by o.destroys r)

-- The loop of `#pushAuthenticated` that takes the buffered payloads from `next` on, and what follows
-- it. The first argument bounds the rounds: each takes an entry of the buffer.
abbrev settle : Receiver → Receiver
settle r = elim r.buffer [
  | [] ↦ record r { gap_started_at = none; last_observed_at = none }
  | _ ∷ _ ↦ r
]

abbrev taking : ℕ → Receiver → Receiver
taking counter r = record r { buffer = delete counter r.buffer }

pub drain : ℕ → Receiver → Receiver × List Payload
drain zero r = (r, [])
drain (suc rounds) r =
    let rest = drain rounds (record r { buffer = delete r.next r.buffer; next = r.next + 1 }) in
    elim (lookup r.next r.buffer) [
      | none ↦ (settle r, [])
      | some p ↦ if r.next == r.maximum then (close_exhausted r, p ∷ []) else (rest.0, p ∷ rest.1)
    ]

-- A counter that is the next one.
pub deliver : Payload → Op (List Payload)
deliver payload r =
    if r.next == r.maximum
    then (assert_no_deferred_destroy >> pure (payload ∷ [])) (close_exhausted r)
    else let (r', rest) = drain (suc (length r.buffer)) (record r { next = r.next + 1 }) in
      (assert_no_deferred_destroy >> pure (payload ∷ rest)) r'

-- A counter above the next one: `#pushAuthenticated` buffers its payload.
abbrev pub put : ℕ → Payload → Receiver → Receiver
put counter payload r = record r { buffer = r.buffer ++ (counter, payload) ∷ [] }

abbrev pub starts_gap : Reading → Op (Option ℕ)
starts_gap reading r = elim r.gap_started_at [
  | none ↦ (read_now reading >>= λ t. pure (some t)) r
  | some g ↦ (r, ok none)
]

abbrev pub open_gap : Option ℕ → Receiver → Receiver
open_gap none r = r
open_gap (some t) r = record r { gap_started_at = some t; last_observed_at = some t }

abbrev pub finish_hold : Observation → Op (List Payload)
finish_hold observation = do notify_observer observation; assert_no_deferred_destroy; pure []

abbrev pub store_held : ℕ → Observation → Option ℕ → Payload → Op (List Payload)
store_held counter observation started owned r =
    finish_hold observation (open_gap started (put counter owned r))

abbrev pub copy_held : ℕ → Payload → Observation → Option ℕ → Op (List Payload)
copy_held counter payload observation started =
    copy_for_buffer payload >>= store_held counter observation started

pub keep : ℕ → Payload → Reading → Observation → Op (List Payload)
keep counter payload reading observation =
    starts_gap reading >>= copy_held counter payload observation

pub hold : ℕ → Payload → Reading → Observation → Op (List Payload)
hold counter payload reading observation r =
    if leb r.window (counter - r.next)
    then fail_gap r
    else if r.gap_timeout == 0
    then fail_gap r
    else keep counter payload reading observation r

abbrev pub discard : Bool → Op (Unit {0})
discard b r = (r, ok tt)

abbrev pub expire_now : Reading → Op (Unit {0})
expire_now reading = read_now reading >>= λ t. expire_at t >>= discard

abbrev pub check_gap : Reading → Op (Unit {0})
check_gap reading r = elim r.gap_started_at [ none ↦ (r, ok tt) | some g ↦ expire_now reading r ]

pub place : ℕ → Payload → Reading → Observation → Op (List Payload)
place counter payload reading observation r =
    if ltb counter r.next || has counter r.buffer
    then (r, err replay)
    else if ltb r.next counter
    then hold counter payload reading observation r
    else deliver payload r

-- `#pushAuthenticated(counter, payload)`
pub push_authenticated : ℕ → Payload → Reading → Observation → Op (List Payload)
push_authenticated counter payload reading observation r =
    if r.closed
    then (r, err counter_exhausted)
    else (check_gap reading >> place counter payload reading observation) r

-- `#mutate(operation)`
abbrev pub leave {ℓ} : {A : Type ℓ} → Receiver × Result A → Receiver × Result A
leave (r, x) = (
  if r.destroy_requested
      then destroy_now (record r { mutating = false })
      else record r { mutating = false },
  x,
)

abbrev pub mutate {ℓ} : {A : Type ℓ} → Op A → Op A
mutate operation r =
    if r.mutating
    then (r, err counter_invalid)
    else leave (operation (record r { mutating = true }))

-- `pushAuthenticated(counter, payload)`
pub push : Value → Payload → Reading → Observation → Op (List Payload)
push counter payload reading observation = mutate (λ r.
    (lift (counter_value counter r.maximum) >>= λ c.
    push_authenticated c payload reading observation)
      r)

-- `expire(at)`
abbrev pub current_time : Value → Reading → Op ℕ
current_time undefined reading = read_now reading
current_time v reading = clock_value v

pub expire : Value → Reading → Op Bool
expire at reading = mutate (λ r.
    if r.closed then (r, err counter_exhausted) else (current_time at reading >>= expire_at) r)
