-- ===== src/Messages/Payload/Lawful.antt =====
-- What the encrypted payloads mean, given what the package promises.
use hyperdht.Prelude.{
  ℕ, ◌≡◌, ◌≢◌, refl, sym, ap, ap₂, Bool, Option, none, some, List, length, All, arith,
  if◌then◌else◌,
}
use hyperdht.Messages.Flags.{flags, six_flags, seven_flags}
use hyperdht.Messages.Encoding.{
  Compact, Laws, Address, ◌>>=◌, count, is_some, Given, IsLawful, IsUint, IsSmall, Part-put,
  Part-put_filled, Part-then, Part-ends, resized,
}
use hyperdht.Messages.Payload.{
  NoisePayload, HolepunchPayload, noise_payload, noise_marks, decode_version, decode_noise_payload,
  unknown_payload, holepunch_payload, holepunch_marks,
}
use hyperdht.Messages.Payload.Infos.{
  IsHolepunchInfo, IsUdxInfo, IsSecretStreamInfo, IsRelayThroughInfo, holepunch_info-IsLawful,
  udx_info-IsLawful, secret_stream_info-IsLawful, relay_through_info-IsLawful,
}

module _ (c : Compact) (IsIpv4 IsIpv6 : Address → Type 0) (laws : Laws c IsIpv4 IsIpv6) where
  abbrev pub IsNoisePayload : NoisePayload → Type 0
  IsNoisePayload m =
      (m.version ≡ 1)
      × IsSmall m.error
      × IsSmall m.firewall
      × Given (IsHolepunchInfo c IsIpv4 IsIpv6 laws) m.holepunch
      × All IsIpv4 m.addresses4
      × All IsIpv6 m.addresses6
      × Given (IsUdxInfo c IsIpv4 IsIpv6 laws) m.udx
      × Given (IsSecretStreamInfo c IsIpv4 IsIpv6 laws) m.secret_stream
      × Given (IsRelayThroughInfo c IsIpv4 IsIpv6 laws) m.relay_through
      × Given (All IsIpv4) m.relay_addresses

  versioned : NoisePayload → ℕ → NoisePayload
  versioned m version = record m { version = version }

  -- A noise payload of version 1, whose error and firewall take one byte each, is read back from
  -- its encoding, which takes the bytes that `preencode` counts.
  pub noise_payload-IsLawful : IsLawful (noise_payload c) IsNoisePayload
  unfolding noise_payload decode_version decode_noise_payload versioned
  noise_payload-IsLawful m rest
        (
          version, error, firewall, holepunch, addresses4, addresses6, udx, stream, through, relays,
        ) =
      let (small, (b0, (b1, (b2, (b3, (b4, (b5, (b6, _)))))))) = seven_flags (noise_marks m) refl in
      let ipv4s = laws.array c.ipv4 IsIpv4 laws.ipv4 in
      let ipv6s = laws.array c.ipv6 IsIpv6 laws.ipv6 in
      resized
        (Part-then _ (laws.uint 1 _ (omega arith)) (
          Part-then _ (laws.uint (flags (noise_marks m)) _ (omega arith)) (
            Part-then _ (laws.uint m.error _ (omega arith)) (
              Part-then _ (laws.uint m.firewall _ (omega arith)) (
                Part-then _
                  (Part-put _ _ (holepunch_info-IsLawful c IsIpv4 IsIpv6 laws) _ m.holepunch _ b0
                    holepunch)
                  (Part-then _ (Part-put_filled _ _ ipv4s _ m.addresses4 _ b1 addresses4) (
                    Part-then _ (Part-put_filled _ _ ipv6s _ m.addresses6 _ b2 addresses6) (
                      Part-then _
                        (Part-put _ _ (udx_info-IsLawful c IsIpv4 IsIpv6 laws) _ m.udx _ b3 udx)
                        (Part-then _
                          (Part-put _ _ (secret_stream_info-IsLawful c IsIpv4 IsIpv6 laws) _
                            m.secret_stream _ b4 stream)
                          (Part-then _
                            (Part-put _ _ (relay_through_info-IsLawful c IsIpv4 IsIpv6 laws) _
                              m.relay_through _ b5 through)
                            (Part-then _ (Part-put _ _ ipv4s _ m.relay_addresses _ b6 relays)
                              (Part-ends _ m rest (ap (versioned m) (sym version))))))))))))))
        (omega (
          arith,
          laws.uint_small 1 (omega arith),
          laws.uint_small (flags (noise_marks m)) small,
          laws.uint_small m.error error,
          laws.uint_small m.firewall firewall,
        ))

  -- Of a payload of another version the decoder reads the version only.
  pub noise_payload_unknown :
      (version : ℕ) (rest : List ℕ)
      → IsUint version
      → version ≢ 1
      → (noise_payload c).decode (c.uint.encode version rest) ≡ some (unknown_payload version, rest)
  unfolding noise_payload decode_version ◌>>=◌
  noise_payload_unknown version rest h other =
      let part = laws.uint version rest h in ground (arith, part.read)

  abbrev pub IsHolepunchPayload : HolepunchPayload → Type 0
  IsHolepunchPayload m =
      IsSmall m.error
      × IsSmall m.firewall
      × IsSmall m.round
      × Given (All IsIpv4) m.addresses
      × Given IsIpv4 m.remote_address
      × Given (λ b. length b ≡ 32) m.token
      × Given (λ b. length b ≡ 32) m.remote_token

  holding : HolepunchPayload → Bool → Bool → HolepunchPayload
  holding m connected punching = record m { connected = connected; punching = punching }

  address_count : (o : Option Address) → count c.ipv4 o ≡ (if is_some o then 6 else 0)
  unfolding count
  address_count none = refl
  address_count (some a) = laws.ipv4_size a

  token_count : (o : Option (List ℕ)) → count c.fixed32 o ≡ (if is_some o then 32 else 0)
  unfolding count
  token_count none = refl
  token_count (some b) = laws.fixed32_size b

  -- A holepunch payload whose error, firewall and round take one byte each is read back from its
  -- encoding, which takes the bytes that `preencode` counts.
  pub holepunch_payload-IsLawful : IsLawful (holepunch_payload c) IsHolepunchPayload
  unfolding holepunch_payload holding
  holepunch_payload-IsLawful m rest
        (error, firewall, round, addresses, remote, token, remote_token) =
      let (small, (b0, (b1, (b2, (b3, (b4, (b5, _))))))) = six_flags (holepunch_marks m) refl in
      let ipv4s = laws.array c.ipv4 IsIpv4 laws.ipv4 in
      resized
        (Part-then _ (laws.uint (flags (holepunch_marks m)) _ (omega arith)) (
          Part-then _ (laws.uint m.error _ (omega arith)) (
            Part-then _ (laws.uint m.firewall _ (omega arith)) (
              Part-then _ (laws.uint m.round _ (omega arith)) (
                Part-then _ (Part-put _ _ ipv4s _ m.addresses _ b2 addresses) (
                  Part-then _ (Part-put _ _ laws.ipv4 _ m.remote_address _ b3 remote) (
                    Part-then _ (Part-put _ _ laws.fixed32 _ m.token _ b4 token) (
                      Part-then _ (Part-put _ _ laws.fixed32 _ m.remote_token _ b5 remote_token)
                        (Part-ends _ m rest (ap₂ (holding m) b0 b1))))))))))
        (omega (
          arith,
          laws.uint_small (flags (holepunch_marks m)) small,
          laws.uint_small m.error error,
          laws.uint_small m.firewall firewall,
          laws.uint_small m.round round,
          address_count m.remote_address,
          token_count m.token,
          token_count m.remote_token,
        ))
