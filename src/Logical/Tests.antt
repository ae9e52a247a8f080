-- ===== src/Logical/Tests.antt =====
-- About the logical frames of lib/private/private-peer-controller.js: concrete frames.
use hyperdht.Prelude.{◌%◌, ℕ, zero, suc, ◌≡◌, ◌↔◌, ◌≢◌, refl, List, [], ◌∷◌, ◌++◌, arith}
use hyperdht.Prelude.Int.{pos}
use hyperdht.Errors.{ok, err, invalid_route}
use hyperdht.Values.{integer}
use hyperdht.Wire.{buffer, read_uint32, write_uint32}
use hyperdht.Cells.Bytes.{write_uint64}
use hyperdht.Logical.{
  valid_logical_payload, logical_frame, encode_logical, decode_logical, send_credit, Context,
}
use hyperdht.Logical.Laws.{decode_logical-encode_logical, send_credit_iff, Sendable}

abbrev greeting : List ℕ
greeting = 104 ∷ 105 ∷ []

abbrev greeting_frame : List ℕ
greeting_frame = 0 ∷ 0 ∷ 1 ∷ 2 ∷ 0 ∷ 104 ∷ 105 ∷ []

encode_greeting :
    encode_logical (integer (pos 258)) (integer (pos 0)) (buffer greeting) ≡ ok greeting_frame
unfolding encode_logical valid_logical_payload logical_frame write_uint32
encode_greeting = refl

decode_greeting :
    decode_logical (buffer greeting_frame)
    ≡ ok (record { stream_id = 258; flags = 0; bytes = greeting })
unfolding decode_logical valid_logical_payload read_uint32
decode_greeting = refl

-- Data of the circuit itself is refused.
refused_data :
    encode_logical (integer (pos 4294967295)) (integer (pos 0)) (buffer greeting)
    ≡ err invalid_route
unfolding encode_logical valid_logical_payload
refused_data = refl

decode_logical-encode_logical_example :
    decode_logical (buffer greeting_frame)
    ≡ ok (record { stream_id = 258; flags = 0; bytes = greeting })
decode_logical-encode_logical_example =
    decode_logical-encode_logical 258 0 greeting greeting_frame encode_greeting

send_credit_iff_example :
    (send_credit 4294967295 6 2048 ≢ err invalid_route) ↔ Sendable 4294967295 6 (2048 % 65536)
send_credit_iff_example =
    send_credit_iff 4294967295 6 2048 (omega arith) (omega arith) (omega arith)

abbrev zeros : ℕ → List ℕ
zeros zero = []
zeros (suc n) = 0 ∷ zeros n

abbrev context : Context
context = record {
  circuit_id = zeros 16;
  epoch = 77;
  forward_key = zeros 32;
  forward_nonce = zeros 16;
  reverse_key = zeros 32;
  reverse_nonce = zeros 16;
}

abbrev context_wire : List ℕ
context_wire = zeros 16 ++ (write_uint64 77 ++ zeros 96)
