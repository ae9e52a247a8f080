-- ===== src/PeerProtocol/Codec.antt =====
-- About `encodePeerObject` and `decodePeerObject` of lib/private/peer-protocol.js.
use hyperdht.Prelude.{ℕ, ◌≡◌, List, arith}
use hyperdht.Errors.{ok}
use hyperdht.Wire.{Decoded, buffer}
use hyperdht.Wire.Laws.{whole, IsBytes, IsShort, decode-encode}
use hyperdht.Wire.Canonical.{encode-decode}
use hyperdht.PeerProtocol.{
  peer_message_id, peer_object_layout, peer_protocol, peer_protocol_version, encode_peer_object,
  decode_peer_object,
}

peer_protocol-IsShort : IsShort peer_protocol
unfolding peer_message_id peer_object_layout
peer_protocol-IsShort = omega arith

-- For every id, body and suffix that the encoder accepts, decoding the bytes that it returns gives
-- back the protocol version, the id, the body and the suffix.
pub decode_peer_object-encode_peer_object :
    (id : ℕ) (body auth bytes : List ℕ)
    → encode_peer_object (whole id body auth) ≡ ok bytes
    → decode_peer_object (buffer bytes)
      ≡ ok (record {
        protocol_version = peer_protocol_version;
        message_id = id;
        body = body;
        auth_suffix = auth;
      })
unfolding encode_peer_object decode_peer_object
decode_peer_object-encode_peer_object = decode-encode peer_protocol peer_protocol-IsShort

-- For bytes (numbers below 256) that the decoder accepts, encoding the id, body and suffix that it
-- returns gives the same bytes: each object has one encoding.
pub encode_peer_object-decode_peer_object :
    (bytes : List ℕ) (x : Decoded)
    → IsBytes bytes
    → decode_peer_object (buffer bytes) ≡ ok x
    → encode_peer_object (whole x.message_id x.body x.auth_suffix) ≡ ok bytes
unfolding encode_peer_object decode_peer_object
encode_peer_object-decode_peer_object = encode-decode peer_protocol
