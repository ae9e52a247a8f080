-- ===== src/Messages/Payload.antt =====
-- lib/messages.js: `noisePayload` and `holepunchPayload`, which peers send each other encrypted, and
-- the infos that they hold.
pub mod Lawful
pub mod Infos
use hyperdht.Prelude.{
  ℕ, ◌+◌, ◌≡◌, Bool, true, false, not, Option, none, some, List, [], ◌∷◌, ◌==◌, if◌then◌else◌,
}
use hyperdht.Messages.Flags.{flags, flagged, one_flag}
use hyperdht.Messages.Encoding.{
  Encoding, Compact, Address, Reader, ◌>>=◌, pure, put, count, take_if, is_some, is_filled,
  put_filled, count_filled, take_filled,
}

pub record RelayInfo : Type 0 where
  pub relay_address : Address
  pub peer_address : Address

-- `relayInfo`
unfoldable pub relay_info : Compact → Encoding RelayInfo
relay_info c = record {
  preencode = λ m. 12;
  encode = λ m rest. c.ipv4.encode m.relay_address (c.ipv4.encode m.peer_address rest);
  decode = do
    relay_address ← c.ipv4.decode
    peer_address ← c.ipv4.decode
    pure (record { relay_address = relay_address; peer_address = peer_address });
}

pub record HolepunchInfo : Type 0 where
  pub id : ℕ
  pub relays : List RelayInfo

-- `holepunchInfo`
unfoldable pub holepunch_info : Compact → Encoding HolepunchInfo
holepunch_info c = record {
  preencode = λ m. c.uint.preencode m.id + (c.array (relay_info c)).preencode m.relays;
  encode = λ m rest. c.uint.encode m.id ((c.array (relay_info c)).encode m.relays rest);
  decode = do
    id ← c.uint.decode
    relays ← (c.array (relay_info c)).decode
    pure (record { id = id; relays = relays });
}

-- `version` is set by the decoder only.
pub record UdxInfo : Type 0 where
  pub version : ℕ
  pub reusable_socket : Bool
  pub id : ℕ
  pub seq : ℕ

-- `udxInfo`
unfoldable pub udx_info : Compact → Encoding UdxInfo
udx_info c = record {
  preencode = λ m. 2 + c.uint.preencode m.id + c.uint.preencode m.seq;
  encode = λ m rest. c.uint.encode 1 (
      c.uint.encode (if m.reusable_socket then 1 else 0)
        (c.uint.encode m.id (c.uint.encode m.seq rest)));
  decode = do
    version ← c.uint.decode
    features ← c.uint.decode
    id ← c.uint.decode
    seq ← c.uint.decode
    pure (record { version = version; reusable_socket = flagged features 1; id = id; seq = seq });
}

pub record SecretStreamInfo : Type 0 where
  pub version : ℕ

-- `secretStreamInfo`
unfoldable pub secret_stream_info : Compact → Encoding SecretStreamInfo
secret_stream_info c = record {
  preencode = λ m. c.uint.preencode 1;
  encode = λ m rest. c.uint.encode 1 rest;
  decode = do
    version ← c.uint.decode
    pure (record { version = version });
}

pub record RelayThroughInfo : Type 0 where
  pub version : ℕ
  pub public_key : List ℕ
  pub token : List ℕ

-- `relayThroughInfo`
unfoldable pub relay_through_info : Compact → Encoding RelayThroughInfo
relay_through_info c = record {
  preencode = λ m.
      c.uint.preencode 1
      + c.uint.preencode 0
      + c.fixed32.preencode m.public_key
      + c.fixed32.preencode m.token;
  encode = λ m rest.
      c.uint.encode 1
        (c.uint.encode 0 (c.fixed32.encode m.public_key (c.fixed32.encode m.token rest)));
  decode = do
    version ← c.uint.decode
    marks ← c.uint.decode
    public_key ← c.fixed32.decode
    token ← c.fixed32.decode
    pure (record { version = version; public_key = public_key; token = token });
}

-- `version` is set by the decoder only.
pub record NoisePayload : Type 0 where
  pub version : ℕ
  pub error : ℕ
  pub firewall : ℕ
  pub holepunch : Option HolepunchInfo
  pub addresses4 : List Address
  pub addresses6 : List Address
  pub udx : Option UdxInfo
  pub secret_stream : Option SecretStreamInfo
  pub relay_through : Option RelayThroughInfo
  pub relay_addresses : Option (List Address)

abbrev pub noise_marks : NoisePayload → List Bool
noise_marks m =
    is_some m.holepunch
    ∷ is_filled m.addresses4
    ∷ is_filled m.addresses6
    ∷ is_some m.udx
    ∷ is_some m.secret_stream
    ∷ is_some m.relay_through
    ∷ is_some m.relay_addresses
    ∷ []

-- What is returned of a version that is not known.
unfoldable pub unknown_payload : ℕ → NoisePayload
unknown_payload version = record {
  version = version;
  error = 0;
  firewall = 0;
  holepunch = none;
  addresses4 = [];
  addresses6 = [];
  udx = none;
  secret_stream = none;
  relay_through = none;
  relay_addresses = none;
}

-- `exports.noisePayload`, after the version
unfoldable pub decode_noise_payload : Compact → ℕ → Reader NoisePayload
decode_noise_payload c version = do
  marks ← c.uint.decode
  error ← c.uint.decode
  firewall ← c.uint.decode
  holepunch ← take_if (holepunch_info c) (flagged marks 1)
  addresses4 ← take_filled (c.array c.ipv4) (flagged marks 2)
  addresses6 ← take_filled (c.array c.ipv6) (flagged marks 4)
  udx ← take_if (udx_info c) (flagged marks 8)
  secret_stream ← take_if (secret_stream_info c) (flagged marks 16)
  relay_through ← take_if (relay_through_info c) (flagged marks 32)
  relay_addresses ← take_if (c.array c.ipv4) (flagged marks 64)
  pure (record {
    version = version;
    error = error;
    firewall = firewall;
    holepunch = holepunch;
    addresses4 = addresses4;
    addresses6 = addresses6;
    udx = udx;
    secret_stream = secret_stream;
    relay_through = relay_through;
    relay_addresses = relay_addresses;
  })

unfoldable pub decode_version : Compact → ℕ → Reader NoisePayload
unfolding decode_noise_payload unknown_payload
decode_version c version =
    if version == 1 then decode_noise_payload c version else pure (unknown_payload version)

-- `exports.noisePayload`
unfoldable pub noise_payload : Compact → Encoding NoisePayload
unfolding decode_version
noise_payload c = record {
  preencode = λ m.
      4
      + count (holepunch_info c) m.holepunch
      + count_filled (c.array c.ipv4) m.addresses4
      + count_filled (c.array c.ipv6) m.addresses6
      + count (udx_info c) m.udx
      + count (secret_stream_info c) m.secret_stream
      + count (relay_through_info c) m.relay_through
      + count (c.array c.ipv4) m.relay_addresses;
  encode = λ m rest. c.uint.encode 1 (
      c.uint.encode (flags (noise_marks m)) (
        c.uint.encode m.error (
          c.uint.encode m.firewall (
            put (holepunch_info c) m.holepunch (
              put_filled (c.array c.ipv4) m.addresses4 (
                put_filled (c.array c.ipv6) m.addresses6 (
                  put (udx_info c) m.udx (
                    put (secret_stream_info c) m.secret_stream (
                      put (relay_through_info c) m.relay_through
                        (put (c.array c.ipv4) m.relay_addresses rest))))))))));
  decode = do
    version ← c.uint.decode
    decode_version c version;
}

pub record HolepunchPayload : Type 0 where
  pub error : ℕ
  pub firewall : ℕ
  pub round : ℕ
  pub connected : Bool
  pub punching : Bool
  pub addresses : Option (List Address)
  pub remote_address : Option Address
  pub token : Option (List ℕ)
  pub remote_token : Option (List ℕ)

abbrev pub holepunch_marks : HolepunchPayload → List Bool
holepunch_marks m =
    m.connected
    ∷ m.punching
    ∷ is_some m.addresses
    ∷ is_some m.remote_address
    ∷ is_some m.token
    ∷ is_some m.remote_token
    ∷ []

-- `exports.holepunchPayload`
unfoldable pub holepunch_payload : Compact → Encoding HolepunchPayload
holepunch_payload c = record {
  preencode = λ m.
      4
      + count (c.array c.ipv4) m.addresses
      + (if is_some m.remote_address then 6 else 0)
      + (if is_some m.token then 32 else 0)
      + (if is_some m.remote_token then 32 else 0);
  encode = λ m rest. c.uint.encode (flags (holepunch_marks m)) (
      c.uint.encode m.error (
        c.uint.encode m.firewall (
          c.uint.encode m.round (
            put (c.array c.ipv4) m.addresses (
              put c.ipv4 m.remote_address
                (put c.fixed32 m.token (put c.fixed32 m.remote_token rest)))))));
  decode = do
    marks ← c.uint.decode
    error ← c.uint.decode
    firewall ← c.uint.decode
    round ← c.uint.decode
    addresses ← take_if (c.array c.ipv4) (flagged marks 4)
    remote_address ← take_if c.ipv4 (flagged marks 8)
    token ← take_if c.fixed32 (flagged marks 16)
    remote_token ← take_if c.fixed32 (flagged marks 32)
    pure (record {
      error = error;
      firewall = firewall;
      round = round;
      connected = flagged marks 1;
      punching = flagged marks 2;
      addresses = addresses;
      remote_address = remote_address;
      token = token;
      remote_token = remote_token;
    });
}
