-- ===== src/PeerProtocol/Tests.antt =====
-- The codecs at a concrete object: a branch teardown of the peer wire, and one of the M3 wire.
use hyperdht.Prelude.{ℕ, zero, suc, ◌≡◌, refl, List, [], ◌∷◌, arith}
use hyperdht.Errors.{ok}
use hyperdht.Wire.{Decoded, buffer, frame, encode}
use hyperdht.Wire.Laws.{whole, IsBytes}
use hyperdht.PeerProtocol.{encode_peer_object, decode_peer_object}
use hyperdht.PeerProtocol.Codec.{
  encode_peer_object-decode_peer_object, decode_peer_object-encode_peer_object,
}

abbrev repeat : ℕ → List ℕ
repeat zero = []
repeat (suc n) = 7 ∷ repeat n

abbrev absent_body : List ℕ
absent_body = repeat 16

abbrev absent_object : Decoded
absent_object = record {
  protocol_version = 3;
  message_id = 883;
  body = absent_body;
  auth_suffix = [];
}

abbrev absent_bytes : List ℕ
absent_bytes = 0 ∷ 0 ∷ 0 ∷ 3 ∷ 3 ∷ 115 ∷ 0 ∷ 16 ∷ absent_body

decode_peer_object-encode_peer_object_example :
    decode_peer_object (buffer absent_bytes) ≡ ok absent_object
unfolding encode_peer_object encode frame
decode_peer_object-encode_peer_object_example =
    decode_peer_object-encode_peer_object 883 absent_body [] absent_bytes refl

absent_bytes-IsBytes : IsBytes absent_bytes
absent_bytes-IsBytes = omega arith

encode_peer_object-decode_peer_object_example :
    encode_peer_object (whole absent_object.message_id absent_object.body absent_object.auth_suffix)
    ≡ ok absent_bytes
unfolding encode_peer_object encode frame
encode_peer_object-decode_peer_object_example =
    encode_peer_object-decode_peer_object absent_bytes absent_object absent_bytes-IsBytes
      (decode_peer_object-encode_peer_object 883 absent_body [] absent_bytes refl)

abbrev destroy_body : List ℕ
destroy_body = repeat 42

abbrev destroy_object : Decoded
destroy_object = record {
  protocol_version = 1;
  message_id = 38;
  body = destroy_body;
  auth_suffix = [];
}

abbrev destroy_bytes : List ℕ
destroy_bytes = 0 ∷ 0 ∷ 0 ∷ 1 ∷ 0 ∷ 38 ∷ 0 ∷ 42 ∷ destroy_body
