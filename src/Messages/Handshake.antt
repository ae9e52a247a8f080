-- ===== src/Messages/Handshake.antt =====
-- lib/messages.js: `handshake` and `holepunch`, the messages that nodes route to one another.
use hyperdht.Prelude.{ℕ, ◌+◌, ◌≡◌, refl, Option, none, some, List, [], ◌∷◌, arith, if◌then◌else◌}
use hyperdht.Messages.Flags.{flags, flagged, two_flags, one_flag}
use hyperdht.Messages.Encoding.{
  Encoding, Compact, Laws, Address, ◌>>=◌, pure, put, count, take_if, is_some, Given, IsLawful,
  IsUint, IsSmall, IsBuffer, Part-put, Part-then, Part-pure, resized,
}

pub record HandshakeMessage : Type 0 where
  pub mode : ℕ
  pub noise : Option (List ℕ)
  pub peer_address : Option Address
  pub relay_address : Option Address

abbrev pub handshake_flags : HandshakeMessage → ℕ
handshake_flags m = flags (is_some m.peer_address ∷ is_some m.relay_address ∷ [])

abbrev six : Option Address → ℕ
six o = if is_some o then 6 else 0

-- `exports.handshake`
unfoldable pub handshake : Compact → Encoding HandshakeMessage
handshake c = record {
  preencode = λ m. 1 + 1 + six m.peer_address + six m.relay_address + c.buffer.preencode m.noise;
  encode = λ m rest. c.uint.encode (handshake_flags m) (
      c.uint.encode m.mode
        (c.buffer.encode m.noise (put c.ipv4 m.peer_address (put c.ipv4 m.relay_address rest))));
  decode = do
    marks ← c.uint.decode
    mode ← c.uint.decode
    noise ← c.buffer.decode
    peer_address ← take_if c.ipv4 (flagged marks 1)
    relay_address ← take_if c.ipv4 (flagged marks 2)
    pure (record {
      mode = mode;
      noise = noise;
      peer_address = peer_address;
      relay_address = relay_address;
    });
}

module _ (c : Compact) (IsIpv4 IsIpv6 : Address → Type 0) (laws : Laws c IsIpv4 IsIpv6) where
  abbrev pub IsHandshake : HandshakeMessage → Type 0
  IsHandshake m =
      IsSmall m.mode × IsBuffer m.noise × Given IsIpv4 m.peer_address × Given IsIpv4 m.relay_address

  six-count : (o : Option Address) → count c.ipv4 o ≡ six o
  unfolding count
  six-count none = refl
  six-count (some a) = laws.ipv4_size a

  -- A handshake message whose mode takes one byte is read back from its encoding, which takes the
  -- bytes that `preencode` counts.
  pub handshake-IsLawful : IsLawful (handshake c) IsHandshake
  unfolding handshake
  handshake-IsLawful m rest (small, noise, peer, relay) =
      let (small_flags, (first, (second, _))) =
        two_flags (is_some m.peer_address ∷ is_some m.relay_address ∷ []) refl in
      resized
        (Part-then _ (laws.uint (handshake_flags m) _ (omega arith)) (
          Part-then _ (laws.uint m.mode _ (omega arith)) (
            Part-then _ (laws.buffer m.noise _ noise) (
              Part-then _ (Part-put c.ipv4 IsIpv4 laws.ipv4 _ m.peer_address _ first peer) (
                Part-then _ (Part-put c.ipv4 IsIpv4 laws.ipv4 _ m.relay_address _ second relay)
                  (Part-pure m rest))))))
        (omega (
          arith,
          laws.uint_small (handshake_flags m) small_flags,
          laws.uint_small m.mode small,
          six-count m.peer_address,
          six-count m.relay_address,
        ))

pub record HolepunchMessage : Type 0 where
  pub mode : ℕ
  pub id : ℕ
  pub payload : Option (List ℕ)
  pub peer_address : Option Address

abbrev holepunch_flags : HolepunchMessage → ℕ
holepunch_flags m = flags (is_some m.peer_address ∷ [])

-- `exports.holepunch`
unfoldable pub holepunch : Compact → Encoding HolepunchMessage
holepunch c = record {
  preencode =
      λ m. 2 + c.uint.preencode m.id + c.buffer.preencode m.payload + count c.ipv4 m.peer_address;
  encode = λ m rest. c.uint.encode (holepunch_flags m) (
      c.uint.encode m.mode
        (c.uint.encode m.id (c.buffer.encode m.payload (put c.ipv4 m.peer_address rest))));
  decode = do
    marks ← c.uint.decode
    mode ← c.uint.decode
    id ← c.uint.decode
    payload ← c.buffer.decode
    peer_address ← take_if c.ipv4 (flagged marks 1)
    pure (record { mode = mode; id = id; payload = payload; peer_address = peer_address });
}

module _ (c : Compact) (IsIpv4 IsIpv6 : Address → Type 0) (laws : Laws c IsIpv4 IsIpv6) where
  abbrev pub IsHolepunch : HolepunchMessage → Type 0
  IsHolepunch m = IsSmall m.mode × IsUint m.id × IsBuffer m.payload × Given IsIpv4 m.peer_address

  pub holepunch-IsLawful : IsLawful (holepunch c) IsHolepunch
  unfolding holepunch
  holepunch-IsLawful m rest (small, id, payload, peer) =
      let (small_flags, (first, _)) = one_flag (is_some m.peer_address ∷ []) refl in
      resized
        (Part-then _ (laws.uint (holepunch_flags m) _ (omega arith)) (
          Part-then _ (laws.uint m.mode _ (omega arith)) (
            Part-then _ (laws.uint m.id _ id) (
              Part-then _ (laws.buffer m.payload _ payload) (
                Part-then _ (Part-put c.ipv4 IsIpv4 laws.ipv4 _ m.peer_address _ first peer)
                  (Part-pure m rest))))))
        (omega
          (arith, laws.uint_small (holepunch_flags m) small_flags, laws.uint_small m.mode small))
