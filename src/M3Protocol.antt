-- ===== src/M3Protocol.antt =====
-- lib/private/protocol.js: the objects of the M3 wire registry, version 1: the layout table and the
-- codec.
pub mod Codec
use hyperdht.Prelude.{ℕ, ◌≡◌, none, List, [], ◌∷◌}
use hyperdht.Errors.{Result, ok}
use hyperdht.Values.{Options}
use hyperdht.Wire
use hyperdht.Wire.{Layout, Protocol, ObjectSlots, BufferValue, buffer, Decoded}

abbrev pub row : ℕ → ℕ → ℕ → ℕ → ℕ × Layout
row id low high suffix =
    (id, record { minimum = low; maximum = high; suffix = suffix; allowed = none })

-- `M3_OBJECT_LAYOUT`
unfoldable pub m3_object_layout : List (ℕ × Layout)
m3_object_layout =
    row 0x0001 188 476 64
    ∷ row 0x0002 110 110 0
    ∷ row 0x0003 335 4473 64
    ∷ row 0x0004 176 176 0
    ∷ row 0x0005 272 272 64
    ∷ row 0x0006 69 69 0
    ∷ row 0x0007 41 4441 0
    ∷ row 0x0008 48 1192 0
    ∷ row 0x0009 72 72 0
    ∷ row 0x0020 302 302 64
    ∷ row 0x0021 213 213 64
    ∷ row 0x0022 306 306 64
    ∷ row 0x0023 486 486 0
    ∷ row 0x0024 210 210 64
    ∷ row 0x0025 458 746 0
    ∷ row 0x0026 42 42 0
    ∷ row 0x0027 58 58 0
    ∷ row 0x0028 58 58 0
    ∷ row 0x0040 96 96 0
    ∷ row 0x0041 233 233 64
    ∷ row 0x0042 105 105 0
    ∷ row 0x0043 169 169 0
    ∷ row 0x0044 905 4265 64
    ∷ row 0x0045 310 654 64
    ∷ row 0x0050 578 738 64
    ∷ row 0x0051 124 124 16
    ∷ row 0x0052 27 1176 16
    ∷ row 0x0053 30 1191 0
    ∷ row 0x0054 20 8082 0
    ∷ row 0x0100 164 164 0
    ∷ row 0x0101 221 1382 0
    ∷ row 0x0102 200 8262 0
    ∷ row 0x0201 141 2891 64
    ∷ row 0x0280 132 899 64
    ∷ row 0x0281 131 131 64
    ∷ row 0x0282 206 7990 64
    ∷ row 0x0283 72 72 0
    ∷ row 0x0284 301 301 64
    ∷ []

abbrev pub m3_protocol_version : ℕ
m3_protocol_version = 1

abbrev pub m3_protocol : Protocol
unfolding m3_object_layout
m3_protocol = record { version = m3_protocol_version; table = m3_object_layout }

-- `encodeM3Object`, `decodeM3Object`
unfoldable pub encode_m3_object : Options ObjectSlots → Result (List ℕ)
unfolding m3_object_layout
encode_m3_object = Wire.encode m3_protocol

unfoldable pub decode_m3_object : BufferValue → Result Decoded
unfolding m3_object_layout
decode_m3_object = Wire.decode m3_protocol
