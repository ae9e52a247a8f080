-- ===== src/Logical/Laws.antt =====
-- About the logical frames and the route contexts of lib/private/private-peer-controller.js.
use hyperdht.Prelude.{
  ◌%◌, ℕ, ◌+◌, ◌≤◌, ◌≡◌, ◌↔◌, ◌⊎◌, ◌≢◌, refl, sym, transport, ap, ◌∙◌, true, List, [], ◌∷◌, ◌++◌,
  arith, inl, inr, length, take, Bool-cases, if◌then◌else◌, length-append,
}
use hyperdht.Prelude.Int.{pos}
use hyperdht.Errors.{ok, err, invalid_route}
use hyperdht.Values.{integer}
use hyperdht.Wire.{buffer, read_uint16, read_uint32, write_uint32}
use hyperdht.Wire.Laws.{IsBytes}
use hyperdht.Cells.Bytes.{
  write_uint64, read_uint64, max_uint64, take_exact, drop_past, take_all, length-write_uint64,
  read_uint64-write_uint64,
}
use hyperdht.Logical.{
  valid_logical_payload, encode_logical, logical_frame, Message, decode_logical, credit_bytes,
  send_credit, Context, encode_route_context, decode_route_context, part, counter_origin,
  circuit_stream_id, logical_splice_ready, logical_credit, logical_demand, logical_release,
  window_of,
}

abbrev message : ℕ → ℕ → List ℕ → Message
message stream_id flags bytes = record { stream_id = stream_id; flags = flags; bytes = bytes }

encode_accepts :
    (stream_id flags : ℕ) (bytes frame : List ℕ)
    → encode_logical (integer (pos stream_id)) (integer (pos flags)) (buffer bytes) ≡ ok frame
    → (stream_id ≤ circuit_stream_id)
      × (valid_logical_payload stream_id flags bytes ≡ true)
      × (frame ≡ logical_frame stream_id flags bytes)
unfolding encode_logical
encode_accepts stream_id flags bytes frame e = (ground arith, ground arith, ground arith)

read-write : (n : ℕ) → n ≤ circuit_stream_id → read_uint32 (write_uint32 n) 0 ≡ n
unfolding read_uint32 write_uint32
read-write n h = omega arith

parsed :
    (n stream_id flags : ℕ) (bytes : List ℕ)
    → n ≡ stream_id
    → valid_logical_payload stream_id flags bytes ≡ true
    → (if valid_logical_payload n flags bytes
        then ok (message n flags bytes)
        else err invalid_route)
      ≡ ok (message stream_id flags bytes)
parsed n stream_id flags bytes e valid =
    let here : valid_logical_payload n flags bytes ≡ true =
      ap (λ k. valid_logical_payload k flags bytes) e ∙ valid in
    ground (arith, here, e)

decode_frame :
    (stream_id flags : ℕ) (bytes : List ℕ)
    → stream_id ≤ circuit_stream_id
    → valid_logical_payload stream_id flags bytes ≡ true
    → decode_logical (buffer (logical_frame stream_id flags bytes))
      ≡ ok (message stream_id flags bytes)
unfolding decode_logical logical_frame write_uint32
decode_frame stream_id flags bytes small valid =
    parsed (read_uint32 (write_uint32 stream_id) 0) stream_id flags bytes
      (read-write stream_id small) valid

-- A frame that was encoded is decoded to the id, the flags and the data it was made of.
pub decode_logical-encode_logical :
    (stream_id flags : ℕ) (bytes frame : List ℕ)
    → encode_logical (integer (pos stream_id)) (integer (pos flags)) (buffer bytes) ≡ ok frame
    → decode_logical (buffer frame) ≡ ok (message stream_id flags bytes)
decode_logical-encode_logical stream_id flags bytes frame e =
    let parts = encode_accepts stream_id flags bytes frame e in
    ap (λ f. decode_logical (buffer f)) parts.2 ∙ decode_frame stream_id flags bytes parts.0 parts.1

write-read :
    (a b c d : ℕ)
    → IsBytes (a ∷ b ∷ c ∷ d ∷ [])
    → write_uint32 (read_uint32 (a ∷ b ∷ c ∷ d ∷ []) 0) ≡ a ∷ b ∷ c ∷ d ∷ []
unfolding read_uint32 write_uint32
write-read a b c d h = ground arith

valid_flags :
    (stream_id flags : ℕ) (bytes : List ℕ)
    → valid_logical_payload stream_id flags bytes ≡ true
    → flags ≤ logical_splice_ready
unfolding valid_logical_payload
valid_flags stream_id flags bytes h = ground arith

encode_valid :
    (stream_id flags : ℕ) (bytes : List ℕ)
    → stream_id ≤ circuit_stream_id
    → valid_logical_payload stream_id flags bytes ≡ true
    → encode_logical (integer (pos stream_id)) (integer (pos flags)) (buffer bytes)
      ≡ ok (logical_frame stream_id flags bytes)
unfolding encode_logical
encode_valid stream_id flags bytes small valid =
    let low = valid_flags stream_id flags bytes valid in ground arith

read_small :
    (a b c d : ℕ)
    → IsBytes (a ∷ b ∷ c ∷ d ∷ [])
    → read_uint32 (a ∷ b ∷ c ∷ d ∷ []) 0 ≤ circuit_stream_id
unfolding read_uint32
read_small a b c d h = omega (arith, h)

parsed_back :
    (n flags : ℕ) (bytes : List ℕ) (m : Message)
    → (if valid_logical_payload n flags bytes
        then ok (message n flags bytes)
        else err invalid_route)
      ≡ ok m
    → (valid_logical_payload n flags bytes ≡ true) × (m ≡ message n flags bytes)
parsed_back n flags bytes m e = ground (arith, e)

-- What is decoded from bytes is encoded to the same bytes, so that each message has one frame.
pub encode_logical-decode_logical :
    (frame : List ℕ) (m : Message)
    → IsBytes frame
    → decode_logical (buffer frame) ≡ ok m
    → encode_logical (integer (pos m.stream_id)) (integer (pos m.flags)) (buffer m.bytes) ≡ ok frame
unfolding decode_logical logical_frame
encode_logical-decode_logical (a ∷ b ∷ c ∷ d ∷ flags ∷ bytes) m h e =
    let n = read_uint32 (a ∷ b ∷ c ∷ d ∷ []) 0 in
    let parts = parsed_back n flags bytes m e in
    let small : n ≤ circuit_stream_id =
      read_small a b c d (h.0, (h.1.0, (h.1.1.0, (h.1.1.1.0, tt)))) in
    ap (λ k. encode_logical (integer (pos k.stream_id)) (integer (pos k.flags)) (buffer k.bytes))
      parts.1
    ∙ encode_valid n flags bytes small parts.0
    ∙ ap (λ id. ok (id ++ (flags ∷ bytes)))
        (write-read a b c d (h.0, (h.1.0, (h.1.1.0, (h.1.1.1.0, tt)))))
encode_logical-decode_logical frame m h e = absurd (ground (arith, e))

abbrev pub Sendable : ℕ → ℕ → ℕ → Type 0
Sendable stream_id flags amount =
    (amount ≤ window_of stream_id)
    × ((1 ≤ amount) ⊎ (flags ≡ logical_demand))
    × ((flags ≡ logical_credit) ⊎ (stream_id ≡ circuit_stream_id))

valid_credit :
    (stream_id flags : ℕ) (bytes : List ℕ)
    → logical_credit ≤ flags
    → flags ≤ logical_release
    → length bytes ≡ 2
    → (valid_logical_payload stream_id flags bytes ≡ true)
      ↔ Sendable stream_id flags (read_uint16 bytes 0)
unfolding valid_logical_payload
valid_credit stream_id flags bytes low high two = ground (arith, low, high, two)

read-credit_bytes : (amount : ℕ) → read_uint16 (credit_bytes amount) 0 ≡ amount % 65536
unfolding credit_bytes read_uint16
read-credit_bytes amount = omega arith

-- For every stream id in range, every kind of credit message and every amount, whose two low bytes are
-- sent: the message can be sent exactly if it is about the circuit, or credit of a stream, and the
-- amount that is sent is at most the window, and zero only in a demand, which it cancels.
pub send_credit_iff :
    (stream_id flags amount : ℕ)
    → stream_id ≤ circuit_stream_id
    → logical_credit ≤ flags
    → flags ≤ logical_release
    → (send_credit stream_id flags amount ≢ err invalid_route)
      ↔ Sendable stream_id flags (amount % 65536)
unfolding send_credit encode_logical credit_bytes
send_credit_iff stream_id flags amount small low high =
    let bytes = credit_bytes amount in
    let valid = valid_credit stream_id flags bytes low high refl in
    let same = ap (Sendable stream_id flags) (read-credit_bytes amount) in
    elim (Bool-cases (valid_logical_payload stream_id flags bytes)) [
      | inl v ↦ (
        λ sent. transport same (valid.0 v),
        λ sendable refused.
            absurd (ground (arith, encode_valid stream_id flags bytes small v, refused)),
      )
      | inr v ↦ (
        λ sent. absurd (sent (ground (arith, v))),
        λ sendable refused. absurd (ground (arith, v, valid.1 (transport (sym same) sendable))),
      )
    ]

abbrev pub Sized : Context → Type 0
Sized x =
    (length x.circuit_id ≡ 16)
    × (x.epoch ≤ max_uint64)
    × (length x.forward_key ≡ 32)
    × (length x.forward_nonce ≡ 16)
    × (length x.reverse_key ≡ 32)
    × (length x.reverse_nonce ≡ 16)

-- A field of known size, behind what comes before it.
part_next :
    (before size from : ℕ) (xs rest : List ℕ)
    → length xs ≡ before
    → part (before + from) size (xs ++ rest) ≡ part from size rest
part_next before size from xs rest h = ap (take size) (drop_past before from xs rest h)

-- A route context whose keys have their sizes and whose epoch fits into eight bytes is read back from
-- its wire form.
pub decode_route_context-encode_route_context :
    (x : Context) (wire : List ℕ)
    → Sized x
    → encode_route_context x ≡ ok wire
    → decode_route_context (buffer wire) ≡ ok x
unfolding encode_route_context decode_route_context
decode_route_context-encode_route_context x wire h e =
    let a = x.circuit_id in
    let n = write_uint64 x.epoch in
    let ten = length-write_uint64 x.epoch in
    let last = x.reverse_key ++ x.reverse_nonce in
    let fourth = x.forward_nonce ++ last in
    let third = x.forward_key ++ fourth in
    let made : wire ≡ a ++ (n ++ third) = ground (arith, e, h.1) in
    let long : length wire ≡ 120 = omega (
      arith,
      ap length made,
      length-append a (n ++ third),
      length-append n third,
      length-append x.forward_key fourth,
      length-append x.forward_nonce last,
      length-append x.reverse_key x.reverse_nonce,
      ten,
      h,
    ) in
    let epoch_read : read_uint64 (part 16 8 wire) ≡ x.epoch =
      ap read_uint64
        (ap (part 16 8) made ∙ part_next 16 8 0 a (n ++ third) h.0 ∙ take_exact 8 n third ten)
      ∙ read_uint64-write_uint64 x.epoch h.1 in
    let circuit : part 0 16 wire ≡ a = ap (part 0 16) made ∙ take_exact 16 a (n ++ third) h.0 in
    let keys = λ (from size : ℕ).
      part_next 16 size (8 + from) a (n ++ third) h.0 ∙ part_next 8 size from n third ten in
    let key_1 : part 24 32 wire ≡ x.forward_key =
      ap (part 24 32) made ∙ keys 0 32 ∙ take_exact 32 x.forward_key fourth h.2 in
    let nonce_1 : part 56 16 wire ≡ x.forward_nonce =
      ap (part 56 16) made
      ∙ keys 32 16
      ∙ part_next 32 16 0 x.forward_key fourth h.2
      ∙ take_exact 16 x.forward_nonce last h.3 in
    let key_2 : part 72 32 wire ≡ x.reverse_key =
      ap (part 72 32) made
      ∙ keys 48 32
      ∙ part_next 32 32 16 x.forward_key fourth h.2
      ∙ part_next 16 32 0 x.forward_nonce last h.3
      ∙ take_exact 32 x.reverse_key x.reverse_nonce h.4 in
    let nonce_2 : part 104 16 wire ≡ x.reverse_nonce =
      ap (part 104 16) made
      ∙ keys 80 16
      ∙ part_next 32 16 48 x.forward_key fourth h.2
      ∙ part_next 16 16 32 x.forward_nonce last h.3
      ∙ part_next 32 16 0 x.reverse_key x.reverse_nonce h.4
      ∙ take_all 16 x.reverse_nonce h.5 in
    ground (arith, long, epoch_read, circuit, key_1, nonce_1, key_2, nonce_2)

-- A counter starts in the lower half of the counter space, above zero.
pub counter_origin_bounds :
    (hash : List ℕ → List ℕ) (key : List ℕ)
    → (1 ≤ counter_origin hash key) × (counter_origin hash key + 9223372036854775807 ≤ max_uint64)
unfolding counter_origin
counter_origin_bounds hash key = (omega arith, omega arith)
