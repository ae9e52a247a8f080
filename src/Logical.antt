-- ===== src/Logical.antt =====
-- lib/private/private-peer-controller.js: the logical frames that a circuit carries for its
-- streams, the credit messages among them, and the wire form of a route context. A buffer is a list
-- of bytes; a value where a number is expected may be any value of JavaScript.
pub mod Laws
mod Tests
use hyperdht.Prelude.{
  ℕ, suc, ◌/◌, ◌%◌, Bool, false, not, ◌&&◌, ◌||◌, List, [], ◌∷◌, ◌++◌, ltb, leb, ◌==◌,
  if◌then◌else◌, length, take, drop,
}
use hyperdht.Prelude.Int.{pos}
use hyperdht.Errors.{Result, ok, err, invalid_route, ◌>>=◌}
use hyperdht.Values.{Value, integer, max_safe_integer}
use hyperdht.Wire.{BufferValue, buffer, no_buffer, read_uint16, read_uint32, write_uint32}
use hyperdht.Cells.Bytes.{write_uint64, read_uint64, max_uint64}

-- `MAX_LOGICAL_PAYLOAD`
abbrev pub max_logical_payload : ℕ
max_logical_payload = 1141

-- `CIRCUIT_STREAM_ID`
abbrev pub circuit_stream_id : ℕ
circuit_stream_id = 4294967295

-- `LOGICAL_DATA`, `LOGICAL_CREDIT`, `LOGICAL_DEMAND`, `LOGICAL_RELEASE`, `LOGICAL_SPLICE_OPEN` and
-- `LOGICAL_SPLICE_READY`
abbrev pub logical_data : ℕ
logical_data = 0

abbrev pub logical_credit : ℕ
logical_credit = 4

abbrev pub logical_demand : ℕ
logical_demand = 5

abbrev pub logical_release : ℕ
logical_release = 6

abbrev pub logical_splice_open : ℕ
logical_splice_open = 7

abbrev pub logical_splice_ready : ℕ
logical_splice_ready = 8

-- The maximum of `validLogicalPayload`: `CIRCUIT_WINDOW` or `STREAM_WINDOW`.
abbrev pub window_of : ℕ → ℕ
window_of stream_id = if stream_id == circuit_stream_id then 2048 else 512

-- `validLogicalPayload(streamId, flags, data)` of a buffer
unfoldable pub valid_logical_payload : ℕ → ℕ → List ℕ → Bool
valid_logical_payload stream_id flags bytes =
    let amount = read_uint16 bytes 0 in
    if ltb max_logical_payload (length bytes)
    then false
    else if flags == logical_splice_open || flags == logical_splice_ready
    then not (stream_id == circuit_stream_id)
      && (length bytes == 4 && not (read_uint32 bytes 0 == 0))
    else if ltb flags logical_credit
    then not (stream_id == circuit_stream_id) && (flags == logical_data || length bytes == 0)
    else if ltb logical_release flags || not (length bytes == 2)
    then false
    else if not (flags == logical_credit) && not (stream_id == circuit_stream_id)
    then false
    else leb amount (window_of stream_id) && (not (amount == 0) || flags == logical_demand)

-- A safe integer that is not negative.
abbrev pub natural : Value → Result ℕ
natural (integer (pos n)) = if ltb max_safe_integer n then err invalid_route else ok n
natural _ = err invalid_route

abbrev pub bytes_of : BufferValue → Result (List ℕ)
bytes_of no_buffer = err invalid_route
bytes_of (buffer bytes) = ok bytes

-- `writeU32(frame, streamId)`, the flags and the data.
unfoldable pub logical_frame : ℕ → ℕ → List ℕ → List ℕ
unfolding write_uint32
logical_frame stream_id flags bytes = write_uint32 stream_id ++ (flags ∷ bytes)

abbrev pub checked_frame : ℕ → ℕ → List ℕ → Result (List ℕ)
checked_frame stream_id flags bytes =
    if ltb circuit_stream_id stream_id
      || (ltb logical_splice_ready flags || not (valid_logical_payload stream_id flags bytes))
    then err invalid_route
    else ok (logical_frame stream_id flags bytes)

-- `encodeLogical(streamId, flags, data)`
unfoldable pub encode_logical : Value → Value → BufferValue → Result (List ℕ)
unfolding valid_logical_payload logical_frame
encode_logical stream_id flags given = do
  id ← natural stream_id
  kind ← natural flags
  bytes ← bytes_of given
  checked_frame id kind bytes

pub record Message : Type 0 where
  pub stream_id : ℕ
  pub flags : ℕ
  pub bytes : List ℕ

-- `decodeLogical(frame)` of a buffer: four bytes of the id, the flags, and the data.
abbrev pub parts_of : List ℕ → Result Message
parts_of (a ∷ b ∷ c ∷ d ∷ flags ∷ bytes) =
    let stream_id = read_uint32 (a ∷ b ∷ c ∷ d ∷ []) 0 in
    if valid_logical_payload stream_id flags bytes
    then ok (record { stream_id = stream_id; flags = flags; bytes = bytes })
    else err invalid_route
parts_of _ = err invalid_route

-- `decodeLogical(frame)`
unfoldable pub decode_logical : BufferValue → Result Message
unfolding valid_logical_payload read_uint32
decode_logical given = do bytes ← bytes_of given; parts_of bytes

-- The data of `sendCredit`, whose bytes are stored modulo 256.
unfoldable pub credit_bytes : ℕ → List ℕ
credit_bytes amount = amount / 256 % 256 ∷ amount % 256 ∷ []

-- The frame of `sendCredit(link, streamId, flags, amount)`
unfoldable pub send_credit : ℕ → ℕ → ℕ → Result (List ℕ)
unfolding encode_logical credit_bytes
send_credit stream_id flags amount =
    encode_logical (integer (pos stream_id)) (integer (pos flags)) (buffer (credit_bytes amount))

pub record Context : Type 0 where
  pub circuit_id : List ℕ
  pub epoch : ℕ
  pub forward_key : List ℕ
  pub forward_nonce : List ℕ
  pub reverse_key : List ℕ
  pub reverse_nonce : List ℕ

-- `encodeRouteContext(context)`, of keys of their sizes; `writeU64` throws where the epoch is too
-- large.
unfoldable pub encode_route_context : Context → Result (List ℕ)
encode_route_context x =
    if ltb max_uint64 x.epoch
    then err invalid_route
    else ok (
        x.circuit_id
        ++ (write_uint64 x.epoch
            ++ (x.forward_key ++ (x.forward_nonce ++ (x.reverse_key ++ x.reverse_nonce)))))

-- `wire.subarray(from, from + size)`
abbrev pub part : ℕ → ℕ → List ℕ → List ℕ
part from size wire = take size (drop from wire)

-- `decodeRouteContext(wire)`
unfoldable pub decode_route_context : BufferValue → Result Context
decode_route_context no_buffer = err invalid_route
decode_route_context (buffer wire) =
    if not (length wire == 120)
    then err invalid_route
    else ok (record {
      circuit_id = part 0 16 wire;
      epoch = read_uint64 (part 16 8 wire);
      forward_key = part 24 32 wire;
      forward_nonce = part 56 16 wire;
      reverse_key = part 72 32 wire;
      reverse_nonce = part 104 16 wire;
    })

-- `counterOrigin(key)`, of a hash of the package sodium: the low 63 bits of its first eight bytes.
unfoldable pub counter_origin : (List ℕ → List ℕ) → List ℕ → ℕ
counter_origin hash key = suc (read_uint64 (take 8 (hash key)) % 9223372036854775808)
