-- ===== src/PeerProtocol.antt =====
-- lib/private/peer-protocol.js: the native peer wire, version 3: its message ids, the layout of each
-- object, and the codec.
pub mod Codec
mod Tests
use hyperdht.Prelude.{
  ℕ, ◌≤◌, ◌<◌, ◌≡◌, refl, Bool, ◌&&◌, none, some, List, [], ◌∷◌, arith, leb, if◌then◌else◌, map,
  All,
}
use hyperdht.Errors.{Result, ok}
use hyperdht.Values.{Options}
use hyperdht.Wire
use hyperdht.Wire.{Layout, Protocol, ObjectSlots, BufferValue, buffer, Decoded}
use hyperdht.Wire.Laws.{whole, IsBytes, IsShort, decode-encode}
use hyperdht.Wire.Canonical.{encode-decode}

-- `PEER_MESSAGE_ID`
pub data PeerMessage : Type 0 where
  peer_capability_advertisement_v2 peer_caps_query_v2 peer_caps_cookie_challenge_v2 : PeerMessage
  peer_caps_response_v2 peer_active_challenge_v2 peer_active_challenge_response_v2 : PeerMessage
  peer_discover_request_v2 peer_discover_response_v2 peer_link_offer_v2 peer_link_accept_v2 :
      PeerMessage
  peer_redacted_responder_proof_v2 peer_extended_v2 peer_tail_ready_v2 : PeerMessage
  peer_extend_request_v2 peer_branch_destroy_v2 peer_branch_teardown_v2 : PeerMessage
  peer_branch_teardown_ack_v2 peer_route_offer_v2 peer_route_accept_v2 peer_route_reject_v2 :
      PeerMessage
  peer_reliable_packet_v2 peer_reliable_ack_v2 peer_open_v2 peer_opened_v2 : PeerMessage
  peer_handshake_v2 peer_data_v2 peer_credit_v2 peer_fin_v2 peer_close_v2 peer_reset_v2 :
      PeerMessage
  peer_route_close_v2 peer_route_close_ack_v2 peer_descriptor_v2 legacy_resolve_v2 : PeerMessage
  legacy_resolved_v2 legacy_reserve_v2 legacy_reserved_v2 peer_noise_fragment_v2 : PeerMessage
  legacy_handshake_accept_v2 legacy_open_v2 entry_register_v2 entry_registered_v2 : PeerMessage
  entry_revoke_v2 private_activate_v2 private_ready_v2 private_ack_v2 private_accepted_v2 :
      PeerMessage
  private_source_receipt_v2 private_open_v2 presence_lookup_v2 presence_store_v2 : PeerMessage
  presence_record_v2 presence_absent_v2 presence_stored_v2 presence_unavailable_v2 : PeerMessage

unfoldable pub peer_message_id : PeerMessage → ℕ
peer_message_id peer_capability_advertisement_v2 = 0x0300
peer_message_id peer_caps_query_v2 = 0x0301
peer_message_id peer_caps_cookie_challenge_v2 = 0x0302
peer_message_id peer_caps_response_v2 = 0x0303
peer_message_id peer_active_challenge_v2 = 0x0304
peer_message_id peer_active_challenge_response_v2 = 0x0305
peer_message_id peer_discover_request_v2 = 0x0306
peer_message_id peer_discover_response_v2 = 0x0307
peer_message_id peer_link_offer_v2 = 0x0308
peer_message_id peer_link_accept_v2 = 0x0309
peer_message_id peer_redacted_responder_proof_v2 = 0x030a
peer_message_id peer_extended_v2 = 0x030b
peer_message_id peer_tail_ready_v2 = 0x030c
peer_message_id peer_extend_request_v2 = 0x030d
peer_message_id peer_branch_destroy_v2 = 0x030e
peer_message_id peer_branch_teardown_v2 = 0x030f
peer_message_id peer_branch_teardown_ack_v2 = 0x0310
peer_message_id peer_route_offer_v2 = 0x0311
peer_message_id peer_route_accept_v2 = 0x0312
peer_message_id peer_route_reject_v2 = 0x0313
peer_message_id peer_reliable_packet_v2 = 0x0314
peer_message_id peer_reliable_ack_v2 = 0x0315
peer_message_id peer_open_v2 = 0x0316
peer_message_id peer_opened_v2 = 0x0317
peer_message_id peer_handshake_v2 = 0x0318
peer_message_id peer_data_v2 = 0x0319
peer_message_id peer_credit_v2 = 0x031a
peer_message_id peer_fin_v2 = 0x031b
peer_message_id peer_close_v2 = 0x031c
peer_message_id peer_reset_v2 = 0x031d
peer_message_id peer_route_close_v2 = 0x031e
peer_message_id peer_route_close_ack_v2 = 0x031f
peer_message_id peer_descriptor_v2 = 0x0340
peer_message_id legacy_resolve_v2 = 0x0341
peer_message_id legacy_resolved_v2 = 0x0342
peer_message_id legacy_reserve_v2 = 0x0343
peer_message_id legacy_reserved_v2 = 0x0344
peer_message_id peer_noise_fragment_v2 = 0x0345
peer_message_id legacy_handshake_accept_v2 = 0x0346
peer_message_id legacy_open_v2 = 0x0347
peer_message_id entry_register_v2 = 0x0349
peer_message_id entry_registered_v2 = 0x034a
peer_message_id entry_revoke_v2 = 0x034b
peer_message_id private_activate_v2 = 0x0360
peer_message_id private_ready_v2 = 0x0361
peer_message_id private_ack_v2 = 0x0362
peer_message_id private_accepted_v2 = 0x0363
peer_message_id private_source_receipt_v2 = 0x0364
peer_message_id private_open_v2 = 0x0365
peer_message_id presence_lookup_v2 = 0x0370
peer_message_id presence_store_v2 = 0x0371
peer_message_id presence_record_v2 = 0x0372
peer_message_id presence_absent_v2 = 0x0373
peer_message_id presence_stored_v2 = 0x0374
peer_message_id presence_unavailable_v2 = 0x0375

abbrev fixed : ℕ → ℕ → Layout
fixed bytes suffix = record { minimum = bytes; maximum = bytes; suffix = suffix; allowed = none }

abbrev ranged : ℕ → ℕ → ℕ → Layout
ranged low high suffix = record { minimum = low; maximum = high; suffix = suffix; allowed = none }

-- `PEER_OBJECT_LAYOUT`
unfoldable pub peer_object_layout : PeerMessage → Layout
peer_object_layout peer_capability_advertisement_v2 = fixed 188 64
peer_object_layout peer_caps_query_v2 = fixed 110 0
peer_object_layout peer_caps_cookie_challenge_v2 = fixed 72 0
peer_object_layout peer_caps_response_v2 = fixed 335 64
peer_object_layout peer_active_challenge_v2 = fixed 176 0
peer_object_layout peer_active_challenge_response_v2 = fixed 240 64
peer_object_layout peer_discover_request_v2 = record {
  minimum = 79;
  maximum = 339;
  suffix = 0;
  allowed = some (79 ∷ 339 ∷ []);
}
peer_object_layout peer_discover_response_v2 = fixed 436 0
peer_object_layout peer_link_offer_v2 = fixed 360 64
peer_object_layout peer_link_accept_v2 = fixed 213 64
peer_object_layout peer_redacted_responder_proof_v2 = fixed 338 64
peer_object_layout peer_extended_v2 = fixed 518 0
peer_object_layout peer_tail_ready_v2 = fixed 210 64
peer_object_layout peer_extend_request_v2 = fixed 516 0
peer_object_layout peer_branch_destroy_v2 = fixed 42 0
peer_object_layout peer_branch_teardown_v2 = fixed 58 0
peer_object_layout peer_branch_teardown_ack_v2 = fixed 58 0
peer_object_layout peer_route_offer_v2 = fixed 212 16
peer_object_layout peer_route_accept_v2 = fixed 260 16
peer_object_layout peer_route_reject_v2 = fixed 64 16
peer_object_layout peer_reliable_packet_v2 = ranged 29 1065 0
peer_object_layout peer_reliable_ack_v2 = fixed 64 0
peer_object_layout peer_open_v2 = fixed 88 0
peer_object_layout peer_opened_v2 = fixed 64 0
peer_object_layout peer_handshake_v2 = ranged 49 1029 0
peer_object_layout peer_data_v2 = ranged 45 1021 0
peer_object_layout peer_credit_v2 = fixed 60 0
peer_object_layout peer_fin_v2 = fixed 56 0
peer_object_layout peer_close_v2 = fixed 56 0
peer_object_layout peer_reset_v2 = fixed 60 0
peer_object_layout peer_route_close_v2 = fixed 40 0
peer_object_layout peer_route_close_ack_v2 = fixed 40 0
peer_object_layout peer_descriptor_v2 = fixed 511 0
peer_object_layout legacy_resolve_v2 = fixed 104 0
peer_object_layout legacy_resolved_v2 = fixed 106 0
peer_object_layout legacy_reserve_v2 = fixed 96 0
peer_object_layout legacy_reserved_v2 = fixed 132 0
peer_object_layout peer_noise_fragment_v2 = ranged 64 1065 0
peer_object_layout legacy_handshake_accept_v2 = fixed 132 0
peer_object_layout legacy_open_v2 = fixed 100 0
peer_object_layout entry_register_v2 = fixed 478 0
peer_object_layout entry_registered_v2 = fixed 136 0
peer_object_layout entry_revoke_v2 = fixed 88 0
peer_object_layout private_activate_v2 = fixed 749 0
peer_object_layout private_ready_v2 = fixed 220 0
peer_object_layout private_ack_v2 = fixed 232 0
peer_object_layout private_accepted_v2 = fixed 168 0
peer_object_layout private_source_receipt_v2 = fixed 120 0
peer_object_layout private_open_v2 = fixed 216 0
peer_object_layout presence_lookup_v2 = fixed 48 0
peer_object_layout presence_store_v2 = fixed 1011 0
peer_object_layout presence_record_v2 = fixed 979 0
peer_object_layout presence_absent_v2 = fixed 16 0
peer_object_layout presence_stored_v2 = fixed 22 0
peer_object_layout presence_unavailable_v2 = fixed 16 0

abbrev pub peer_messages : List PeerMessage
peer_messages =
    peer_capability_advertisement_v2 ∷ peer_caps_query_v2 ∷ peer_caps_cookie_challenge_v2
    ∷ peer_caps_response_v2 ∷ peer_active_challenge_v2 ∷ peer_active_challenge_response_v2
    ∷ peer_discover_request_v2 ∷ peer_discover_response_v2 ∷ peer_link_offer_v2
    ∷ peer_link_accept_v2 ∷ peer_redacted_responder_proof_v2 ∷ peer_extended_v2 ∷ peer_tail_ready_v2
    ∷ peer_extend_request_v2 ∷ peer_branch_destroy_v2 ∷ peer_branch_teardown_v2
    ∷ peer_branch_teardown_ack_v2 ∷ peer_route_offer_v2 ∷ peer_route_accept_v2
    ∷ peer_route_reject_v2 ∷ peer_reliable_packet_v2 ∷ peer_reliable_ack_v2 ∷ peer_open_v2
    ∷ peer_opened_v2 ∷ peer_handshake_v2 ∷ peer_data_v2 ∷ peer_credit_v2 ∷ peer_fin_v2
    ∷ peer_close_v2 ∷ peer_reset_v2 ∷ peer_route_close_v2 ∷ peer_route_close_ack_v2
    ∷ peer_descriptor_v2 ∷ legacy_resolve_v2 ∷ legacy_resolved_v2 ∷ legacy_reserve_v2
    ∷ legacy_reserved_v2 ∷ peer_noise_fragment_v2 ∷ legacy_handshake_accept_v2 ∷ legacy_open_v2
    ∷ entry_register_v2 ∷ entry_registered_v2 ∷ entry_revoke_v2 ∷ private_activate_v2
    ∷ private_ready_v2 ∷ private_ack_v2 ∷ private_accepted_v2 ∷ private_source_receipt_v2
    ∷ private_open_v2 ∷ presence_lookup_v2 ∷ presence_store_v2 ∷ presence_record_v2
    ∷ presence_absent_v2 ∷ presence_stored_v2 ∷ presence_unavailable_v2 ∷ []

abbrev pub row : PeerMessage → ℕ × Layout
unfolding peer_message_id peer_object_layout
row m = (peer_message_id m, peer_object_layout m)

abbrev pub peer_protocol_version : ℕ
peer_protocol_version = 3

abbrev pub peer_protocol : Protocol
unfolding peer_message_id peer_object_layout
peer_protocol = record { version = peer_protocol_version; table = map row peer_messages }

-- `encodePeerObject`, `decodePeerObject`
unfoldable pub encode_peer_object : Options ObjectSlots → Result (List ℕ)
unfolding peer_message_id peer_object_layout
encode_peer_object = Wire.encode peer_protocol

unfoldable pub decode_peer_object : BufferValue → Result Decoded
unfolding peer_message_id peer_object_layout
decode_peer_object = Wire.decode peer_protocol
