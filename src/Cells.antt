-- ===== src/Cells.antt =====
-- lib/private/cell-codec.js: `seal` and `open` of the class `CellCodec`, which put payloads into
-- cells of one size. The cipher is a parameter. Options have the properties that are named, with
-- buffers, numbers and bigints as values; of a buffer the length is checked, and a counter is what
-- the sender of lib/private/counters.js returns.
pub mod Bytes
pub mod Headers
pub mod Laws
mod Tests
use hyperdht.Prelude.{
  ℕ, ◌+◌, ◌-◌, ◌*◌, ◌≤◌, ◌<◌, ◌≡◌, ◌^◌, Bool, true, false, not, ◌&&◌, ◌||◌, Option, none, some,
  List, [], ◌∷◌, ◌++◌, length, take, drop, get_or, ltb, leb, ◌==◌, if◌then◌else◌,
}
use hyperdht.Prelude.Int.{pos}
use hyperdht.Errors.{
  Error, replay, counter_invalid, counter_gap, counter_exhausted, cell_invalid, Result, ok, err,
  ◌>>=◌, ◌>>◌,
}
use hyperdht.Values.{bigint}
use hyperdht.Counters.Sender.{Sender, next}
use hyperdht.Counters.Window.{Window, accept}
use hyperdht.Counters.Receiver.{Receiver, Payload, buffer, Reading, Observation, push}
use hyperdht.Wire.{write_uint16}
use hyperdht.Dht.{equals}
use hyperdht.Cells.Bytes.{write_uint64, read_uint64, max_uint64}

abbrev pub cell_size : ℕ
cell_size = 1200

abbrev pub cell_header_size : ℕ
cell_header_size = 36

abbrev pub cell_body_size : ℕ
cell_body_size = 1148

abbrev pub max_cell_payload : ℕ
max_cell_payload = 1146

abbrev pub aead_tag_bytes : ℕ
aead_tag_bytes = 16

-- `PROTOCOL_VERSION`, and `DOMAIN.CELL_HEADER` as its bytes
abbrev pub protocol_version : ℕ
protocol_version = 0

abbrev pub cell_header_domain : List ℕ
cell_header_domain =
    104 ∷ 121 ∷ 112 ∷ 101 ∷ 114 ∷ 100 ∷ 104 ∷ 116 ∷ 45 ∷ 112 ∷ 114 ∷ 105 ∷ 118 ∷ 97 ∷ 116 ∷ 101 ∷ 45
    ∷ 114 ∷ 111 ∷ 117 ∷ 116 ∷ 101 ∷ 115 ∷ 47 ∷ 99 ∷ 101 ∷ 108 ∷ 108 ∷ 47 ∷ 104 ∷ 101 ∷ 97 ∷ 100
    ∷ 101 ∷ 114 ∷ 47 ∷ 118 ∷ 48 ∷ []

-- `CELL_CLASS.DATAGRAM`; the classes 0 and 1 are control and stream.
abbrev pub datagram : ℕ
datagram = 2

-- The methods `seal` and `open` of the option `crypto`, and the padding: a key, a nonce prefix, a
-- counter, associated data, and a text. `seal` and `open` may throw an error, which is passed on, and
-- `open` returns null, which is none, for a text that is not authentic. A padding that throws is none.
pub record Crypto : Type 0 where
  pub seal : List ℕ → List ℕ → ℕ → List ℕ → List ℕ → Result (List ℕ)
  pub open_ : List ℕ → List ℕ → ℕ → List ℕ → List ℕ → Result (Option (List ℕ))
  pub padding : ℕ → Option (List ℕ)

-- What both sides of a circuit agree on.
pub record Circuit : Type 0 where
  pub key : List ℕ
  pub nonce_prefix : List ℕ
  pub cell_class : ℕ
  pub direction : ℕ
  pub epoch : ℕ
  pub circuit_id : List ℕ

-- `isBuffer`
abbrev pub is_buffer : List ℕ → ℕ → Bool
is_buffer value size = length value == size

-- `knownClass` and `knownDirection`
abbrev pub known_class : ℕ → Bool
known_class value = leb value datagram

abbrev pub known_direction : ℕ → Bool
known_direction value = leb value 1

-- `uint64`
abbrev pub uint64 : ℕ → Bool
uint64 value = leb value max_uint64

abbrev pub known_circuit : Circuit → Bool
known_circuit o =
    is_buffer o.key 32
    && is_buffer o.nonce_prefix 16
    && known_class o.cell_class
    && known_direction o.direction
    && uint64 o.epoch
    && is_buffer o.circuit_id 16

-- `receiverFailureCode`: other errors become CELL_INVALID.
abbrev pub receiver_failure : Error → Error
receiver_failure replay = replay
receiver_failure counter_invalid = counter_invalid
receiver_failure counter_gap = counter_gap
receiver_failure counter_exhausted = counter_exhausted
receiver_failure e = cell_invalid

abbrev pub valid : {A : Type 0} → Bool → Result A → Result A
valid b rest = if b then rest else err cell_invalid

abbrev pub given : {A B : Type 0} → Option A → (A → Result B) → Result B
given none f = err cell_invalid
given (some a) f = f a

-- The first 28 bytes of a header, and a header.
unfoldable pub prefix_of : Circuit → List ℕ
prefix_of o =
    protocol_version ∷ o.cell_class ∷ o.direction ∷ 0 ∷ write_uint64 o.epoch ++ o.circuit_id

unfoldable pub header_of : Circuit → ℕ → List ℕ
unfolding prefix_of
header_of o counter = prefix_of o ++ write_uint64 counter

-- `associatedData`
abbrev pub associated_data : List ℕ → List ℕ
associated_data header = cell_header_domain ++ header

-- The body of a cell: the length of the payload, the payload, and the padding.
unfoldable pub body_of : Crypto → List ℕ → Result (List ℕ)
body_of crypto payload =
    if leb max_cell_payload (length payload)
    then ok (write_uint16 (length payload) ++ payload)
    else given (crypto.padding (max_cell_payload - length payload)) (λ padding.
      valid (is_buffer padding (max_cell_payload - length payload))
        (ok (write_uint16 (length payload) ++ payload ++ padding)))

-- The packet, after the counter is taken.
unfoldable pub packet_of : Crypto → Circuit → ℕ → List ℕ → Result (List ℕ)
unfolding header_of
packet_of crypto o counter body = valid (uint64 counter) (
    crypto.seal o.key o.nonce_prefix counter (associated_data (header_of o counter)) body
    >>= λ ciphertext.
        valid (is_buffer ciphertext (cell_body_size + aead_tag_bytes))
          (ok (header_of o counter ++ ciphertext)))

abbrev pub finish_seal : Crypto → Circuit → List ℕ → Sender × Result ℕ → Sender × Result (List ℕ)
finish_seal crypto o body (s, ok counter) = (s, packet_of crypto o counter body)
finish_seal crypto o body (s, err e) = (s, err (receiver_failure e))

abbrev pub seal_body : Crypto → Circuit → Sender → Result (List ℕ) → Sender × Result (List ℕ)
seal_body crypto o s (err e) = (s, err e)
seal_body crypto o s (ok body) = finish_seal crypto o body (next s)

-- `seal`
unfoldable pub seal : Crypto → Circuit → List ℕ → Sender → Sender × Result (List ℕ)
unfolding body_of packet_of
seal crypto o payload s =
    if known_circuit o && leb (length payload) max_cell_payload
    then seal_body crypto o s (body_of crypto payload)
    else (s, err cell_invalid)

-- What a packet says of its circuit.
abbrev pub valid_header : Circuit → List ℕ → Bool
valid_header o header =
    get_or header 0 1 == protocol_version
    && known_class (get_or header 1 3)
    && known_direction (get_or header 2 2)
    && get_or header 3 1 == 0

abbrev pub expected_header : Circuit → List ℕ → Bool
expected_header o header =
    get_or header 1 3 == o.cell_class
    && get_or header 2 2 == o.direction
    && read_uint64 (take 8 (drop 4 header)) == o.epoch
    && equals (take 16 (drop 12 header)) o.circuit_id

unfoldable pub payload_of : List ℕ → Result (List ℕ)
payload_of plaintext = valid (is_buffer plaintext cell_body_size) (
    let size = get_or plaintext 0 0 * 256 + get_or plaintext 1 0 in
    valid (leb size max_cell_payload) (ok (take size (drop 2 plaintext))))

-- `open`, where the header names the circuit.
unfoldable pub open_text : Crypto → Circuit → List ℕ → List ℕ → ℕ → Result (ℕ × List ℕ)
unfolding payload_of
open_text crypto o header ciphertext counter =
    crypto.open_ o.key o.nonce_prefix counter (associated_data header) ciphertext >>= λ candidate.
    given candidate (λ plaintext. payload_of plaintext >>= λ payload. ok (counter, payload))

unfoldable pub open_parts : Crypto → Circuit → List ℕ → List ℕ → Result (ℕ × List ℕ)
unfolding open_text
open_parts crypto o header ciphertext = valid (valid_header o header) (
    valid (known_circuit o && expected_header o header)
      (open_text crypto o header ciphertext (read_uint64 (take 8 (drop 28 header)))))

-- `open`, up to the receiver: the counter and the payload of an authentic cell of the circuit.
unfoldable pub open_cell : Crypto → Circuit → List ℕ → Result (ℕ × List ℕ)
unfolding open_parts
open_cell crypto o packet =
    valid (is_buffer packet cell_size)
      (open_parts crypto o (take cell_header_size packet) (drop cell_header_size packet))

abbrev pub accepted : List ℕ → Window × Result Bool → Window × Result (List ℕ)
accepted payload (w, ok true) = (w, ok payload)
accepted payload (w, ok false) = (w, err cell_invalid)
accepted payload (w, err e) = (w, err (receiver_failure e))

abbrev pub accept_opened : Window → Result (ℕ × List ℕ) → Window × Result (List ℕ)
accept_opened w (err e) = (w, err e)
accept_opened w (ok (counter, payload)) = accepted payload (accept w (bigint (pos counter)))

-- `open` of a datagram
unfoldable pub open_datagram : Crypto → Circuit → List ℕ → Window → Window × Result (List ℕ)
unfolding open_cell
open_datagram crypto o packet w = accept_opened w (open_cell crypto o packet)

abbrev pub delivered : Receiver × Result (List Payload) → Receiver × Result (List Payload)
delivered (r, ok delivery) = (r, ok delivery)
delivered (r, err e) = (r, err (receiver_failure e))

abbrev pub push_opened :
    Reading → Observation → Receiver → Result (ℕ × List ℕ) → Receiver × Result (List Payload)
push_opened reading seen r (err e) = (r, err e)
push_opened reading seen r (ok (counter, payload)) =
    delivered (push (bigint (pos counter)) (buffer payload) reading seen r)

-- `open` of a cell of another class
unfoldable pub open_ordered :
    Crypto → Circuit → List ℕ → Reading → Observation → Receiver → Receiver × Result (List Payload)
unfolding open_cell
open_ordered crypto o packet reading seen r = push_opened reading seen r (open_cell crypto o packet)
