-- ===== src/Presence/Lookup.antt =====
-- About a presence record of lib/private/blinded-presence.js as a mutable value of
-- lib/persistent.js: its owner puts it at a node, and a reader gets it there.
use hyperdht.Prelude.{◌<◌, ℕ, ◌≡◌, refl, ap, transport, ◌∙◌, true, some, length, arith}
use hyperdht.Errors.{Result, ok}
use hyperdht.Messages.Encoding.{Laws, Address}
use hyperdht.Messages.Records.{MutablePutRequest, mutable_get_response}
use hyperdht.Messages.Records.Lawful.{IsMutablePutRequest}
use hyperdht.Dht.{Buffer, Node, CacheLaws, encode}
use hyperdht.Persistent.{State, reply, verify_mutable}
use hyperdht.Persistent.Mutable.{on_mutable_put, on_mutable_get}
use hyperdht.Persistent.Mutable.Get.{
  IsFresh, response_to, put_of, get_of, on_mutable_get-on_mutable_put,
}
use hyperdht.Blinding.{Sodium, Signer, create_blinded_signer, derive_blinded_public_key}
use hyperdht.Blinding.Laws.{GroupLaws, created}
use hyperdht.Presence.{
  Entry, Suite, Published, encode_presence_record, sign_mutable, open_presence_record,
}
use hyperdht.Presence.Records.{
  SuiteLaws, SizeLaws, made, length-signature, verify_mutable-sign_mutable,
  open_presence_record-encode_presence_record,
}

one_key : (r : Result Buffer) (a b : Buffer) → r ≡ ok a → r ≡ ok b → a ≡ b
one_key r a b h g = ground (arith, h, g)

module _ (u : Suite) (n : Node) (s : Sodium) (IsIpv4 IsIpv6 : Address → Type 0)
    (laws : Laws n.compact IsIpv4 IsIpv6) (cache : CacheLaws n.caches) where
  -- The request by which the owner puts what it published.
  abbrev pub put_record : Published → Buffer → MutablePutRequest
  put_record p signature = record {
    public_key = p.public_key;
    seq = p.seq;
    value = some p.value;
    signature = signature;
  }

  -- A get for the hash of `key` after the put returns the record with its signature, under the number
  -- that was asked for.
  abbrev pub Replies :
      Published → Buffer → Buffer → Address → Address → State n → ℕ → Buffer → Type 0
  Replies p signature token from asker node q key =
      on_mutable_get n (get_of n IsIpv4 IsIpv6 laws cache (n.hash key) asker q)
        (on_mutable_put n
          (put_of n IsIpv4 IsIpv6 laws cache (n.hash p.public_key) token from
            (put_record p signature))
          node).0
      ≡ reply (
          some (
            encode (mutable_get_response n.compact)
              (response_to n IsIpv4 IsIpv6 laws cache q p.value signature)))

  -- With a group, sizes, a cipher, encodings and caches that keep their laws: once the owner of a
  -- signer has published and signed a record, and has put it at a node that keeps nothing under the
  -- key, or a value of a lower sequence number, a reader who derives the key from the identity gets the
  -- record there under its revision, and opens it to the same entry.
  pub open_presence_record-on_mutable_get :
      GroupLaws s
      → SizeLaws n s
      → SuiteLaws u
      → (identity secret_key secret prefix value public_key signature key token : Buffer)
        (from asker : Address) (period revision seq : ℕ) (entry : Entry) (k : Signer)
        (p : Published) (node : State n)
      → create_blinded_signer s identity secret_key period ≡ ok k
      → length prefix ≡ 16
      → encode_presence_record u k period revision secret entry prefix ≡ ok p
      → sign_mutable u n s k p seq value public_key ≡ ok signature
      → derive_blinded_public_key s identity period ≡ ok key
      → IsFresh n IsIpv4 IsIpv6 laws cache (n.hash p.public_key) p.seq node
      → Replies p signature token from asker node revision key
        × (open_presence_record u n s identity period revision secret p.value signature
            ≡ ok (record { period = period; revision = revision; entry = entry }))
  open_presence_record-on_mutable_get group sizes cipher identity secret_key secret prefix value
        public_key signature key token from asker period revision seq entry k p node owns wide
        published sent derived fresh =
      let m = made u k period revision secret entry prefix p published in
      let same : p.public_key ≡ key =
        m.key_made
        ∙ one_key (derive_blinded_public_key s identity period) k.public_key key
            (created s group identity secret_key period k owns).0 derived in
      let filled : 0 < length p.value = omega (arith, ap length m.value_made) in
      let fits : IsMutablePutRequest n.compact IsIpv4 IsIpv6 laws (put_record p signature) = (
        ap length m.key_made ∙ m.key_size,
        omega (arith, m.seq_made, m.small_revision),
        filled,
        length-signature u n s sizes k p seq value public_key signature sent,
      ) in
      let verified : verify_mutable n signature p.seq (some p.value) p.public_key ≡ true =
        ap (verify_mutable n signature p.seq (some p.value)) m.key_made
        ∙ verify_mutable-sign_mutable u n s group sizes identity secret_key value public_key
            signature period seq k p owns sent in
      let got =
        on_mutable_get-on_mutable_put n IsIpv4 IsIpv6 laws cache token p.value from asker
          (put_record p signature) p.seq node fits refl verified fresh (omega arith) in
      (
        transport (ap (Replies p signature token from asker node revision) same) (
            transport
              (ap (λ q. Replies p signature token from asker node q p.public_key) m.seq_made) got),
        open_presence_record-encode_presence_record u n s group sizes cipher identity secret_key
            secret prefix value public_key signature period revision seq entry k p owns wide
            published sent,
      )
