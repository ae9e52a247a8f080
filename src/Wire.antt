-- ===== src/Wire.antt =====
-- The framing that lib/private/peer-protocol.js and lib/private/protocol.js write twice: a version,
-- a message id, a body length, the body and an authentication suffix. Bytes are numbers.
pub mod Laws
pub mod Canonical
use hyperdht.Prelude.{
  ℕ, ◌+◌, ◌*◌, ◌/◌, ◌%◌, Bool, true, false, not, ◌&&◌, ◌||◌, Option, none, some, List, [], ◌∷◌,
  ◌++◌, ltb, leb, ◌==◌, if◌then◌else◌, length, take, drop, get_or,
}
use hyperdht.Prelude.Int.{pos, negsuc}
use hyperdht.Prelude.Assoc.{lookup}
use hyperdht.Errors.{Result, ok, err, invalid_route, ◌>>=◌, ◌>>◌}
use hyperdht.Values.{Value, integer, Options, omitted, malformed, object, max_safe_integer}

-- A row of the layout table: body bytes from `minimum` to `maximum`, or one of the `allowed`
-- lengths where the row lists them, and `suffix` bytes of authentication.
pub record Layout : Type 0 where
  pub minimum : ℕ
  pub maximum : ℕ
  pub suffix : ℕ
  pub allowed : Option (List ℕ)

pub record Protocol : Type 0 where
  pub version : ℕ
  pub table : List (ℕ × Layout)

-- A value where a buffer is expected.
pub data BufferValue : Type 0 where
  buffer : List ℕ → BufferValue
  no_buffer : BufferValue

-- An own property read through its descriptor: none there, one with a getter or a throwing
-- trap, or a value.
pub data Slot {ℓ} (A : Type ℓ) : Type ℓ where
  missing : Slot A
  refused : Slot A
  own : A → Slot A

pub record ObjectSlots : Type 0 where
  pub message_id : Slot Value
  pub body : Slot BufferValue
  pub auth_suffix : Slot BufferValue

pub record Parts : Type 0 where
  pub message_id : Value
  pub body : BufferValue
  pub auth_suffix : BufferValue

-- What `decode` returns.
pub record Decoded : Type 0 where
  pub protocol_version : ℕ
  pub message_id : ℕ
  pub body : List ℕ
  pub auth_suffix : List ℕ

abbrev pub required {ℓ} : {A : Type ℓ} → Slot A → Result A
required missing = err invalid_route
required refused = err invalid_route
required (own v) = ok v

abbrev pub or_empty : Slot BufferValue → Result BufferValue
or_empty missing = ok (buffer [])
or_empty refused = err invalid_route
or_empty (own v) = ok v

abbrev pub object_options : Options ObjectSlots → Result Parts
object_options omitted = err invalid_route
object_options malformed = err invalid_route
object_options (object slots) = do
  message_id ← required slots.message_id
  body ← required slots.body
  auth_suffix ← or_empty slots.auth_suffix
  ok (record { message_id = message_id; body = body; auth_suffix = auth_suffix })

abbrev pub found : Option Layout → Result Layout
found none = err invalid_route
found (some l) = ok l

abbrev pub object_layout : Protocol → Value → Result Layout
object_layout p (integer (pos n)) =
    if ltb max_safe_integer n then err invalid_route else found (lookup n p.table)
object_layout p _ = err invalid_route

unfoldable pub includes : ℕ → List ℕ → Bool
includes n [] = false
includes n (x ∷ xs) = x == n || includes n xs

unfoldable pub valid_body_length : ℕ → Layout → Bool
valid_body_length n l = elim l.allowed [
  | none ↦ leb l.minimum n && leb n l.maximum
  | some lengths ↦ includes n lengths
]

-- `writeUint16` and `writeUint32` store bytes, so each value is taken modulo 256.
unfoldable pub write_uint16 : ℕ → List ℕ
write_uint16 v = v / 256 % 256 ∷ v % 256 ∷ []

unfoldable pub write_uint32 : ℕ → List ℕ
write_uint32 v = v / 16777216 % 256 ∷ v / 65536 % 256 ∷ v / 256 % 256 ∷ v % 256 ∷ []

unfoldable pub read_uint16 : List ℕ → ℕ → ℕ
read_uint16 b offset = get_or b offset 0 * 256 + get_or b (offset + 1) 0

unfoldable pub read_uint32 : List ℕ → ℕ → ℕ
read_uint32 b offset =
    get_or b offset 0 * 16777216
    + get_or b (offset + 1) 0 * 65536
    + get_or b (offset + 2) 0 * 256
    + get_or b (offset + 3) 0

-- The bytes of an object whose lengths were accepted.
unfoldable pub frame : ℕ → ℕ → List ℕ → List ℕ → List ℕ
unfolding write_uint16 write_uint32
frame version id body auth =
    write_uint32 version ++ (write_uint16 id ++ (write_uint16 (length body) ++ (body ++ auth)))

abbrev encode_parts : Protocol → Layout → Value → BufferValue → BufferValue → Result (List ℕ)
encode_parts p l (integer (pos id)) (buffer body) (buffer auth) =
    if not (valid_body_length (length body) l)
      || (ltb 65535 (length body) || not (length auth == l.suffix))
    then err invalid_route
    else ok (frame p.version id body auth)
encode_parts p l _ _ _ = err invalid_route

unfoldable pub encode : Protocol → Options ObjectSlots → Result (List ℕ)
unfolding valid_body_length
encode p value = do
  parts ← object_options value
  layout ← object_layout p parts.message_id
  encode_parts p layout parts.message_id parts.body parts.auth_suffix

abbrev pub header : Protocol → List ℕ → Result Layout
header p b =
    if ltb (length b) 8 || not (read_uint32 b 0 == p.version)
    then err invalid_route
    else found (lookup (read_uint16 b 4) p.table)

abbrev pub contents : Protocol → Layout → List ℕ → Result Decoded
contents p l b =
    if not (valid_body_length (read_uint16 b 6) l)
      || not (length b == 8 + read_uint16 b 6 + l.suffix)
    then err invalid_route
    else ok (record {
      protocol_version = p.version;
      message_id = read_uint16 b 4;
      body = take (read_uint16 b 6) (drop 8 b);
      auth_suffix = drop (8 + read_uint16 b 6) b;
    })

unfoldable pub decode : Protocol → BufferValue → Result Decoded
unfolding valid_body_length
decode p no_buffer = err invalid_route
decode p (buffer b) = do layout ← header p b; contents p layout b
