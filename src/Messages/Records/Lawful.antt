-- ===== src/Messages/Records/Lawful.antt =====
-- What the messages of records mean, given what the package promises.
use hyperdht.Prelude.{
  ℕ, ◌≡◌, refl, Bool, true, false, Option, none, some, List, [], ◌∷◌, length, All, arith,
  if◌then◌else◌,
}
use hyperdht.Messages.Flags.{flags, four_flags, one_flag}
use hyperdht.Messages.Encoding.{
  Compact, Laws, Address, count, is_some, Given, IsLawful, IsUint, IsBuffer, Part, Part-put,
  Part-then, Part-pure, resized,
}
use hyperdht.Messages.Records.{
  Peer, Announce, MutableSignable, MutablePutRequest, MutableGetResponse, PluginRequest, peer,
  announce, announce_marks, nonzero, thirty_two, sixty_four, put_number, take_number,
  mutable_signable, mutable_put_request, mutable_get_response, put_buffer, take_buffer,
  count_buffer, plugin_request,
}

abbrev HasLength : ℕ → List ℕ → Type 0
HasLength n b = length b ≡ n

module _ (c : Compact) (IsIpv4 IsIpv6 : Address → Type 0) (laws : Laws c IsIpv4 IsIpv6) where
  abbrev pub IsPeer : Peer → Type 0
  IsPeer m = HasLength 32 m.public_key × All IsIpv4 m.relay_addresses

  pub peer-IsLawful : IsLawful (peer c) IsPeer
  unfolding peer
  peer-IsLawful m rest (key, relays) =
      resized
        (Part-then _ (laws.fixed32 m.public_key _ key) (
          Part-then _ (laws.array c.ipv4 IsIpv4 laws.ipv4 m.relay_addresses _ relays)
            (Part-pure m rest)))
        (omega (arith, laws.fixed32_size m.public_key))

  thirty_two-count : (o : Option (List ℕ)) → count c.fixed32 o ≡ thirty_two o
  unfolding count
  thirty_two-count none = refl
  thirty_two-count (some b) = laws.fixed32_size b

  sixty_four-count : (o : Option (List ℕ)) → count c.fixed64 o ≡ sixty_four o
  unfolding count
  sixty_four-count none = refl
  sixty_four-count (some b) = laws.fixed64_size b

  put_number-Part :
      (b : Bool) (n : ℕ) (rest : List ℕ)
      → b ≡ nonzero n
      → IsUint n
      → Part
          (take_number c.uint b)
          (put_number c.uint n rest)
          n
          rest
          (if nonzero n then c.uint.preencode n else 0)
  unfolding put_number take_number
  put_number-Part true n rest e h =
      let part = laws.uint n rest h in
      record { read = ground (arith, part.read); size = ground (arith, part.size) }
  put_number-Part false n rest e h = record { read = ground arith; size = ground arith }

  abbrev pub IsAnnounce : Announce → Type 0
  IsAnnounce m =
      Given IsPeer m.peer
      × Given (HasLength 32) m.refresh
      × Given (HasLength 64) m.signature
      × IsUint m.bump

  -- An announcement is read back from its encoding, which takes the bytes that `preencode` counts.
  pub announce-IsLawful : IsLawful (announce c) IsAnnounce
  unfolding announce
  announce-IsLawful m rest (peer_, refresh, signature, bump) =
      let (small_flags, (first, (second, (third, (fourth, _))))) =
        four_flags (announce_marks m) refl in
      resized
        (Part-then _ (laws.uint (flags (announce_marks m)) _ (omega arith)) (
          Part-then _ (Part-put (peer c) IsPeer peer-IsLawful _ m.peer _ first peer_) (
            Part-then _ (Part-put c.fixed32 _ laws.fixed32 _ m.refresh _ second refresh) (
              Part-then _ (Part-put c.fixed64 _ laws.fixed64 _ m.signature _ third signature)
                (Part-then _ (put_number-Part _ m.bump _ fourth bump) (Part-pure m rest))))))
        (omega (
          arith,
          laws.uint_small (flags (announce_marks m)) small_flags,
          thirty_two-count m.refresh,
          sixty_four-count m.signature,
        ))

  abbrev pub IsMutableSignable : MutableSignable → Type 0
  IsMutableSignable m = IsUint m.seq × IsBuffer m.value

  pub mutable_signable-IsLawful : IsLawful (mutable_signable c) IsMutableSignable
  unfolding mutable_signable
  mutable_signable-IsLawful m rest (seq, value) =
      resized
        (Part-then _ (laws.uint m.seq _ seq)
          (Part-then _ (laws.buffer m.value _ value) (Part-pure m rest)))
        (omega arith)

  abbrev pub IsMutablePutRequest : MutablePutRequest → Type 0
  IsMutablePutRequest m =
      HasLength 32 m.public_key × IsUint m.seq × IsBuffer m.value × HasLength 64 m.signature

  pub mutable_put_request-IsLawful : IsLawful (mutable_put_request c) IsMutablePutRequest
  unfolding mutable_put_request
  mutable_put_request-IsLawful m rest (key, seq, value, signature) =
      resized
        (Part-then _ (laws.fixed32 m.public_key _ key) (
          Part-then _ (laws.uint m.seq _ seq) (
            Part-then _ (laws.buffer m.value _ value)
              (Part-then _ (laws.fixed64 m.signature _ signature) (Part-pure m rest)))))
        (omega arith)

  abbrev pub IsMutableGetResponse : MutableGetResponse → Type 0
  IsMutableGetResponse m = IsUint m.seq × IsBuffer m.value × HasLength 64 m.signature

  pub mutable_get_response-IsLawful : IsLawful (mutable_get_response c) IsMutableGetResponse
  unfolding mutable_get_response
  mutable_get_response-IsLawful m rest (seq, value, signature) =
      resized
        (Part-then _ (laws.uint m.seq _ seq) (
          Part-then _ (laws.buffer m.value _ value)
            (Part-then _ (laws.fixed64 m.signature _ signature) (Part-pure m rest))))
        (omega arith)

  put_buffer-Part :
      (b : Bool) (o : Option (List ℕ)) (rest : List ℕ)
      → b ≡ is_some o
      → IsBuffer o
      → Part (take_buffer c b) (put_buffer c o rest) o rest (count_buffer c o)
  unfolding put_buffer take_buffer count_buffer
  put_buffer-Part b none rest e h = record { read = ground arith; size = omega arith }
  put_buffer-Part b (some v) rest e h =
      let part = laws.buffer (some v) rest h in
      record { read = ground (arith, part.read); size = part.size }

  abbrev pub IsPluginRequest : PluginRequest → Type 0
  IsPluginRequest m = IsUint m.version × IsUint m.command × IsBuffer m.value

  pub plugin_request-IsLawful : IsLawful (plugin_request c) IsPluginRequest
  unfolding plugin_request
  plugin_request-IsLawful m rest (version, command, value) =
      let (small_flags, (first, _)) = one_flag (is_some m.value ∷ []) refl in
      resized
        (Part-then _ (laws.string m.plugin _ tt) (
          Part-then _ (laws.uint m.version _ version) (
            Part-then _ (laws.uint m.command _ command) (
              Part-then _ (laws.uint (flags (is_some m.value ∷ [])) _ (omega arith))
                (Part-then _ (put_buffer-Part _ m.value _ first value) (Part-pure m rest))))))
        (omega (arith, laws.uint_small (flags (is_some m.value ∷ [])) small_flags))
