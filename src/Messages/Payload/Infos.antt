-- ===== src/Messages/Payload/Infos.antt =====
-- What the infos of an encrypted payload mean, given what the package promises.
use hyperdht.Prelude.{
  ℕ, ◌<◌, ◌≡◌, refl, sym, ap, ap₂, Bool, true, false, length, All, arith, if◌then◌else◌,
}
use hyperdht.Messages.Flags.{flagged}
use hyperdht.Messages.Encoding.{
  Compact, Laws, Address, IsLawful, IsUint, Part-then, Part-pure, Part-ends, resized,
}
use hyperdht.Messages.Payload.{
  RelayInfo, HolepunchInfo, UdxInfo, SecretStreamInfo, RelayThroughInfo, relay_info, holepunch_info,
  udx_info, secret_stream_info, relay_through_info,
}

module _ (c : Compact) (IsIpv4 IsIpv6 : Address → Type 0) (laws : Laws c IsIpv4 IsIpv6) where
  abbrev pub IsRelayInfo : RelayInfo → Type 0
  IsRelayInfo m = IsIpv4 m.relay_address × IsIpv4 m.peer_address

  pub relay_info-IsLawful : IsLawful (relay_info c) IsRelayInfo
  unfolding relay_info
  relay_info-IsLawful m rest (relay, peer) =
      resized
        (Part-then _ (laws.ipv4 m.relay_address _ relay)
          (Part-then _ (laws.ipv4 m.peer_address _ peer) (Part-pure m rest)))
        (omega (arith, laws.ipv4_size m.relay_address, laws.ipv4_size m.peer_address))

  abbrev pub IsHolepunchInfo : HolepunchInfo → Type 0
  IsHolepunchInfo m = IsUint m.id × All IsRelayInfo m.relays

  pub holepunch_info-IsLawful : IsLawful (holepunch_info c) IsHolepunchInfo
  unfolding holepunch_info
  holepunch_info-IsLawful m rest (id, relays) =
      resized
        (Part-then _ (laws.uint m.id _ id) (
          Part-then _ (laws.array (relay_info c) IsRelayInfo relay_info-IsLawful m.relays _ relays)
            (Part-pure m rest)))
        (omega arith)

  abbrev pub IsUdxInfo : UdxInfo → Type 0
  IsUdxInfo m = (m.version ≡ 1) × IsUint m.id × IsUint m.seq

  abbrev feature : Bool → ℕ
  feature b = if b then 1 else 0

  feature_small : (b : Bool) → feature b < 253
  feature_small true = omega arith
  feature_small false = omega arith

  flagged-feature : (b : Bool) → flagged (feature b) 1 ≡ b
  flagged-feature true = refl
  flagged-feature false = refl

  make_udx : UdxInfo → ℕ → Bool → UdxInfo
  make_udx m version reusable_socket = record m {
    version = version;
    reusable_socket = reusable_socket;
  }

  pub udx_info-IsLawful : IsLawful (udx_info c) IsUdxInfo
  unfolding udx_info make_udx
  udx_info-IsLawful m rest (version, id, seq) =
      resized
        (Part-then _ (laws.uint 1 _ (omega arith)) (
          Part-then _
            (laws.uint (feature m.reusable_socket) _
              (omega (arith, feature_small m.reusable_socket)))
            (Part-then _ (laws.uint m.id _ id) (
              Part-then _ (laws.uint m.seq _ seq) (
                Part-ends _ m rest
                  (ap₂ (make_udx m) (sym version) (flagged-feature m.reusable_socket)))))))
        (omega (
          arith,
          laws.uint_small 1 (omega arith),
          laws.uint_small (feature m.reusable_socket) (feature_small m.reusable_socket),
        ))

  abbrev pub IsSecretStreamInfo : SecretStreamInfo → Type 0
  IsSecretStreamInfo m = m.version ≡ 1

  make_secret_stream : ℕ → SecretStreamInfo
  make_secret_stream version = record { version = version }

  pub secret_stream_info-IsLawful : IsLawful (secret_stream_info c) IsSecretStreamInfo
  unfolding secret_stream_info make_secret_stream
  secret_stream_info-IsLawful m rest version =
      resized
        (Part-then _ (laws.uint 1 _ (omega arith))
          (Part-ends _ m rest (ap make_secret_stream (sym version))))
        (omega arith)

  abbrev pub IsRelayThroughInfo : RelayThroughInfo → Type 0
  IsRelayThroughInfo m = (m.version ≡ 1) × (length m.public_key ≡ 32) × (length m.token ≡ 32)

  make_relay_through : RelayThroughInfo → ℕ → RelayThroughInfo
  make_relay_through m version = record m { version = version }

  pub relay_through_info-IsLawful : IsLawful (relay_through_info c) IsRelayThroughInfo
  unfolding relay_through_info make_relay_through
  relay_through_info-IsLawful m rest (version, key, token) =
      resized
        (Part-then _ (laws.uint 1 _ (omega arith)) (
          Part-then _ (laws.uint 0 _ (omega arith)) (
            Part-then _ (laws.fixed32 m.public_key _ key) (
              Part-then _ (laws.fixed32 m.token _ token)
                (Part-ends _ m rest (ap (make_relay_through m) (sym version)))))))
        (omega arith)
