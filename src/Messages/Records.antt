-- ===== src/Messages/Records.antt =====
-- lib/messages.js: the messages with which records are announced, stored and looked up.
pub mod Lawful
use hyperdht.Prelude.{
  ℕ, ◌+◌, ◌≤◌, ◌<◌, ◌≡◌, refl, Bool, true, false, not, Option, none, some, List, [], ◌∷◌, length,
  All, arith, ◌==◌, if◌then◌else◌, Bool-cases, inl, inr,
}
use hyperdht.Messages.Flags.{flags, flagged, four_flags, one_flag}
use hyperdht.Messages.Encoding.{
  Encoding, Compact, Laws, Address, Reader, ◌>>=◌, pure, put, count, take_if, is_some, Given,
  IsLawful, IsUint, IsSmall, IsBuffer, Part-put, Part-then, Part-pure, resized, Part,
}

pub record Peer : Type 0 where
  pub public_key : List ℕ
  pub relay_addresses : List Address

-- `peer`
unfoldable pub peer : Compact → Encoding Peer
peer c = record {
  preencode = λ m. 32 + (c.array c.ipv4).preencode m.relay_addresses;
  encode = λ m rest. c.fixed32.encode m.public_key ((c.array c.ipv4).encode m.relay_addresses rest);
  decode = do
    public_key ← c.fixed32.decode
    relay_addresses ← (c.array c.ipv4).decode
    pure (record { public_key = public_key; relay_addresses = relay_addresses });
}

-- A reply to a lookup, with the encoded peers.
pub record LookupRawReply : Type 0 where
  pub peers : List (List ℕ)
  pub bump : ℕ

-- `lookupRawReply.encode`
unfoldable pub encode_lookup_raw_reply : Compact → LookupRawReply → List ℕ → List ℕ
encode_lookup_raw_reply c m rest = (c.array c.raw).encode m.peers (c.uint.encode m.bump rest)

-- `bump` is 0 where it is not given.
pub record Announce : Type 0 where
  pub peer : Option Peer
  pub refresh : Option (List ℕ)
  pub signature : Option (List ℕ)
  pub bump : ℕ

abbrev pub nonzero : ℕ → Bool
nonzero n = not (n == 0)

abbrev pub announce_marks : Announce → List Bool
announce_marks m = is_some m.peer ∷ is_some m.refresh ∷ is_some m.signature ∷ nonzero m.bump ∷ []

abbrev pub thirty_two : Option (List ℕ) → ℕ
thirty_two o = if is_some o then 32 else 0

abbrev pub sixty_four : Option (List ℕ) → ℕ
sixty_four o = if is_some o then 64 else 0

unfoldable pub put_number : Encoding ℕ → ℕ → List ℕ → List ℕ
put_number c n rest = if nonzero n then c.encode n rest else rest

unfoldable pub take_number : Encoding ℕ → Bool → Reader ℕ
take_number c true s = c.decode s
take_number c false s = some (0, s)

-- `exports.announce`
unfoldable pub announce : Compact → Encoding Announce
unfolding peer put_number take_number
announce c = record {
  preencode = λ m.
      1
      + count (peer c) m.peer
      + thirty_two m.refresh
      + sixty_four m.signature
      + (if nonzero m.bump then c.uint.preencode m.bump else 0);
  encode = λ m rest. c.uint.encode (flags (announce_marks m)) (
      put (peer c) m.peer
        (put c.fixed32 m.refresh (put c.fixed64 m.signature (put_number c.uint m.bump rest))));
  decode = do
    marks ← c.uint.decode
    peer_ ← take_if (peer c) (flagged marks 1)
    refresh ← take_if c.fixed32 (flagged marks 2)
    signature ← take_if c.fixed64 (flagged marks 4)
    bump ← take_number c.uint (flagged marks 8)
    pure (record { peer = peer_; refresh = refresh; signature = signature; bump = bump });
}

pub record MutableSignable : Type 0 where
  pub seq : ℕ
  pub value : Option (List ℕ)

-- `exports.mutableSignable`
unfoldable pub mutable_signable : Compact → Encoding MutableSignable
mutable_signable c = record {
  preencode = λ m. c.uint.preencode m.seq + c.buffer.preencode m.value;
  encode = λ m rest. c.uint.encode m.seq (c.buffer.encode m.value rest);
  decode = do
    seq ← c.uint.decode
    value ← c.buffer.decode
    pure (record { seq = seq; value = value });
}

pub record MutablePutRequest : Type 0 where
  pub public_key : List ℕ
  pub seq : ℕ
  pub value : Option (List ℕ)
  pub signature : List ℕ

-- `exports.mutablePutRequest`
unfoldable pub mutable_put_request : Compact → Encoding MutablePutRequest
mutable_put_request c = record {
  preencode = λ m.
      c.fixed32.preencode m.public_key
      + c.uint.preencode m.seq
      + c.buffer.preencode m.value
      + c.fixed64.preencode m.signature;
  encode = λ m rest.
      c.fixed32.encode m.public_key
        (c.uint.encode m.seq (c.buffer.encode m.value (c.fixed64.encode m.signature rest)));
  decode = do
    public_key ← c.fixed32.decode
    seq ← c.uint.decode
    value ← c.buffer.decode
    signature ← c.fixed64.decode
    pure (record { public_key = public_key; seq = seq; value = value; signature = signature });
}

pub record MutableGetResponse : Type 0 where
  pub seq : ℕ
  pub value : Option (List ℕ)
  pub signature : List ℕ

-- `exports.mutableGetResponse`
unfoldable pub mutable_get_response : Compact → Encoding MutableGetResponse
mutable_get_response c = record {
  preencode =
      λ m. c.uint.preencode m.seq + c.buffer.preencode m.value + c.fixed64.preencode m.signature;
  encode =
      λ m rest. c.uint.encode m.seq (c.buffer.encode m.value (c.fixed64.encode m.signature rest));
  decode = do
    seq ← c.uint.decode
    value ← c.buffer.decode
    signature ← c.fixed64.decode
    pure (record { seq = seq; value = value; signature = signature });
}

pub record PluginRequest : Type 0 where
  pub plugin : List ℕ
  pub version : ℕ
  pub command : ℕ
  pub value : Option (List ℕ)

-- `if (m.value)` of a buffer, which an empty one passes too: the codec writes that as it writes null.
unfoldable pub put_buffer : Compact → Option (List ℕ) → List ℕ → List ℕ
put_buffer c none rest = rest
put_buffer c (some b) rest = c.buffer.encode (some b) rest

unfoldable pub take_buffer : Compact → Bool → Reader (Option (List ℕ))
take_buffer c true s = c.buffer.decode s
take_buffer c false s = some (none, s)

unfoldable pub count_buffer : Compact → Option (List ℕ) → ℕ
count_buffer c none = 0
count_buffer c (some b) = c.buffer.preencode (some b)

-- `exports.pluginRequest`
unfoldable pub plugin_request : Compact → Encoding PluginRequest
unfolding put_buffer take_buffer count_buffer
plugin_request c = record {
  preencode = λ m.
      c.string.preencode m.plugin
      + c.uint.preencode m.version
      + c.uint.preencode m.command
      + 1
      + count_buffer c m.value;
  encode = λ m rest. c.string.encode m.plugin (
      c.uint.encode m.version (
        c.uint.encode m.command
          (c.uint.encode (flags (is_some m.value ∷ [])) (put_buffer c m.value rest))));
  decode = do
    plugin ← c.string.decode
    version ← c.uint.decode
    command ← c.uint.decode
    marks ← c.uint.decode
    value ← take_buffer c (flagged marks 1)
    pure (record { plugin = plugin; version = version; command = command; value = value });
}
