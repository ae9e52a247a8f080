-- ===== src/M3Protocol/Codec.antt =====
-- About `encodeM3Object` and `decodeM3Object` of lib/private/protocol.js.
use hyperdht.Prelude.{ℕ, ◌≡◌, List, arith}
use hyperdht.Errors.{ok}
use hyperdht.Wire.{Decoded, buffer}
use hyperdht.Wire.Laws.{whole, IsBytes, IsShort, decode-encode}
use hyperdht.Wire.Canonical.{encode-decode}
use hyperdht.M3Protocol.{
  m3_object_layout, m3_protocol, m3_protocol_version, encode_m3_object, decode_m3_object,
}

m3_protocol-IsShort : IsShort m3_protocol
unfolding m3_object_layout
m3_protocol-IsShort = omega arith

-- For every id, body and suffix that the M3 encoder accepts, decoding the bytes that it returns gives
-- back the protocol version, the id, the body and the suffix.
pub decode_m3_object-encode_m3_object :
    (id : ℕ) (body auth bytes : List ℕ)
    → encode_m3_object (whole id body auth) ≡ ok bytes
    → decode_m3_object (buffer bytes)
      ≡ ok (record {
        protocol_version = m3_protocol_version;
        message_id = id;
        body = body;
        auth_suffix = auth;
      })
unfolding encode_m3_object decode_m3_object
decode_m3_object-encode_m3_object = decode-encode m3_protocol m3_protocol-IsShort

-- For bytes (numbers below 256) that the M3 decoder accepts, encoding the id, body and suffix that it
-- returns gives the same bytes.
pub encode_m3_object-decode_m3_object :
    (bytes : List ℕ) (x : Decoded)
    → IsBytes bytes
    → decode_m3_object (buffer bytes) ≡ ok x
    → encode_m3_object (whole x.message_id x.body x.auth_suffix) ≡ ok bytes
unfolding encode_m3_object decode_m3_object
encode_m3_object-decode_m3_object = encode-decode m3_protocol
