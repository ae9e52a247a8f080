-- ===== src/Presence/Tests.antt =====
-- About the presence records of lib/private/blinded-presence.js: records of a simple group, with a
-- cipher that puts a tag of zeros in front.
use hyperdht.Prelude.{inl, ℕ, ◌≡◌, refl, true, none, some, [], ◌∷◌, ◌++◌, arith, drop}
use hyperdht.Errors.{ok, err, replay}
use hyperdht.Wire.{write_uint16, write_uint32}
use hyperdht.Cells.Bytes.{write_be, write_uint64}
use hyperdht.Dht.{Buffer, Node}
use hyperdht.Dht.Tests.{simple_node, simple_caches, simple_cache_laws}
use hyperdht.Messages.Encoding.{Address, IsPort}
use hyperdht.Messages.Tests.{simple_laws}
use hyperdht.Blinding.Laws.{created}
use hyperdht.Persistent
use hyperdht.Persistent.{mutable_signed}
use hyperdht.Blinding.{sign, sign_under_blinded}
use hyperdht.Blinding.Tests.{
  simple_sodium, simple_group, length-pad, fill, identity, secret_key, signer, signer_created,
}
use hyperdht.Presence.{
  Entry, descriptor, tombstone, Suite, Published, encode_body, open_body, encode_presence_record,
  sign_mutable, open_presence_record, record_digest_of, body_bytes, zeros,
}
use hyperdht.Presence.Body.{open_body-encode_body}
use hyperdht.Presence.Records.{SuiteLaws, SizeLaws, open_presence_record-encode_presence_record}
use hyperdht.Presence.State.{
  State, Record, present, absent, unknown, resolve_presence_state, observe, Follows,
}
use hyperdht.Presence.History.{
  observe-Follows, observe-IsPast, IsPast, IsValid, resolve_presence_state_twice,
}
use hyperdht.Presence.Reader.{open_presence_record-IsValid}
use hyperdht.Presence.Lookup.{Replies, open_presence_record-on_mutable_get}
use hyperdht.Presence.Periods.{
  period_of, publish_periods, lookup_periods, includes, publish_periods-lookup_periods,
}

abbrev tagged : Buffer → Buffer
tagged text = 0 ∷ 0 ∷ 0 ∷ 0 ∷ 0 ∷ 0 ∷ 0 ∷ 0 ∷ 0 ∷ 0 ∷ 0 ∷ 0 ∷ 0 ∷ 0 ∷ 0 ∷ 0 ∷ text

abbrev simple_suite : Suite
simple_suite = record {
  hash = λ b. b;
  seal = λ key prefix associated text. tagged text;
  open_ = λ key prefix associated text. some (drop 16 text);
  reader_domain = 1 ∷ [];
  ad_domain = 2 ∷ [];
}

simple_suite_laws : SuiteLaws simple_suite
simple_suite_laws = record { open-seal = λ key prefix associated text. refl }

abbrev node : Node
node = record simple_node { verify = simple_sodium.verify }

simple_sizes : SizeLaws node simple_sodium
simple_sizes = record {
  length-base = λ r. length-pad r;
  length-scalar_add = λ r x. refl;
  same_verify = λ signature message key. refl;
}

abbrev entry : Entry
entry = descriptor (65 ∷ 66 ∷ [])

abbrev body : Buffer
body = body_bytes 1 20000 0 (zeros 32) (65 ∷ 66 ∷ [])

encode_entry : encode_body 20000 entry ≡ ok body
unfolding encode_body
encode_entry = refl

open_body-encode_body_example : open_body 20000 body ≡ ok entry
open_body-encode_body_example = open_body-encode_body 20000 entry body encode_entry

abbrev published : Published
unfolding write_uint32
published = record {
  public_key = signer.public_key;
  seq = 3;
  value = 1 ∷ (write_uint32 3 ++ (fill 16 ++ tagged body));
}

published_made :
    encode_presence_record simple_suite signer 20000 3 (fill 32) entry (fill 16) ≡ ok published
unfolding encode_presence_record encode_body published write_uint64 write_be write_uint16
published_made = refl

abbrev signature : Buffer
unfolding published
signature =
    sign_under_blinded simple_sodium signer
      (mutable_signed node published.seq (some published.value))

signature_made :
    sign_mutable simple_suite node simple_sodium signer published 3 published.value
      signer.public_key
    ≡ ok signature
unfolding sign_mutable sign signature published write_uint64 write_be write_uint16
signature_made = refl

open_presence_record-encode_presence_record_example :
    open_presence_record simple_suite node simple_sodium identity 20000 3
      (fill 32)
      published.value
      signature
    ≡ ok (record { period = 20000; revision = 3; entry = entry })
open_presence_record-encode_presence_record_example =
    open_presence_record-encode_presence_record simple_suite node simple_sodium simple_group
      simple_sizes simple_suite_laws identity secret_key (fill 32) (fill 16) published.value
      signer.public_key signature 20000 3 3 entry signer published signer_created refl
      published_made signature_made

abbrev empty_node : Persistent.State node
unfolding simple_caches
empty_node = record {
  records = [];
  bumps = [];
  refreshes = [];
  mutables = [];
  immutables = [];
  forwards = [];
}

abbrev owner : Address
owner = record { host = 7; port = 1 }

open_presence_record-on_mutable_get_example :
    Replies simple_suite node simple_sodium IsPort IsPort simple_laws simple_cache_laws published
      signature
      (8 ∷ [])
      owner
      owner
      empty_node
      3
      signer.public_key
    × (open_presence_record simple_suite node simple_sodium identity 20000 3
          (fill 32)
          published.value
          signature
        ≡ ok (record { period = 20000; revision = 3; entry = entry }))
unfolding simple_caches
open_presence_record-on_mutable_get_example =
    open_presence_record-on_mutable_get simple_suite node simple_sodium IsPort IsPort simple_laws
      simple_cache_laws simple_group simple_sizes simple_suite_laws identity secret_key (fill 32)
      (fill 16) published.value signer.public_key signature signer.public_key (8 ∷ []) owner owner
      20000 3 3 entry signer published empty_node signer_created refl published_made signature_made
      (created simple_sodium simple_group identity secret_key 20000 signer signer_created).0
      (inl refl)

-- The same cipher with a hash of 32 bytes.
abbrev hashed_suite : Suite
hashed_suite = record simple_suite { hash = λ b. fill 32 }

hashed_opens :
    open_presence_record hashed_suite node simple_sodium identity 20000 3
      (fill 32)
      published.value
      signature
    ≡ ok (record { period = 20000; revision = 3; entry = entry })
unfolding encode_presence_record sign_mutable
hashed_opens =
    open_presence_record-encode_presence_record hashed_suite node simple_sodium simple_group
      simple_sizes (record { open-seal = λ key prefix associated text. refl }) identity secret_key
      (fill 32) (fill 16) published.value signer.public_key signature 20000 3 3 entry signer
      published signer_created refl published_made signature_made

open_presence_record-IsValid_example :
    IsValid (record { period = 20000; revision = 3; record_digest = fill 32; entry = entry })
unfolding record_digest_of published write_uint64 write_uint16
open_presence_record-IsValid_example =
    open_presence_record-IsValid hashed_suite node simple_sodium identity 20000 3 (fill 32)
      published.value signature (fill 32) (record { period = 20000; revision = 3; entry = entry })
      (λ bytes. refl) hashed_opens refl

abbrev digest : ℕ → Buffer
digest n = n ∷ fill 31

abbrev seen : ℕ → Entry → Record
seen n e = record { period = 20000; revision = n; record_digest = digest n; entry = e }

abbrev known : State
known = record { presence = present []; period = 20000; revision = 1; record_digest = digest 1 }

-- A tombstone that names the record which the reader has hides the identity, another one does not.
hidden :
    resolve_presence_state (some known) (seen 2 (tombstone 2 (digest 1)))
    ≡ ok (record known { presence = absent; revision = 2; record_digest = digest 2 })
unfolding resolve_presence_state
hidden = refl

not_hidden :
    resolve_presence_state (some known) (seen 2 (tombstone 2 (digest 7)))
    ≡ ok (record known { presence = unknown; revision = 2; record_digest = digest 2 })
unfolding resolve_presence_state
not_hidden = refl

refused : resolve_presence_state (some known) (seen 0 entry) ≡ err replay
unfolding resolve_presence_state
refused = refl

observe-Follows_example :
    (t : State) × (observe (seen 2 entry ∷ seen 0 entry ∷ []) (some known) ≡ some t)
    × Follows known t
observe-Follows_example = observe-Follows (seen 2 entry ∷ seen 0 entry ∷ []) known

observe-IsPast_example :
    (t : State) × (observe (seen 1 entry ∷ seen 4 entry ∷ seen 2 entry ∷ []) none ≡ some t)
    × IsPast (seen 4 entry) t
observe-IsPast_example =
    observe-IsPast (seen 1 entry ∷ []) (seen 2 entry ∷ []) (seen 4 entry) none
      (omega arith, omega arith, refl, tt)

resolve_presence_state_twice_example :
    resolve_presence_state
      (some (record known { presence = absent; revision = 2; record_digest = digest 2 }))
      (seen 2 (tombstone 2 (digest 1)))
    ≡ ok (record known { presence = absent; revision = 2; record_digest = digest 2 })
resolve_presence_state_twice_example =
    resolve_presence_state_twice (some known) (seen 2 (tombstone 2 (digest 1)))
      (record known { presence = absent; revision = 2; record_digest = digest 2 }) refl hidden

publish_periods-lookup_periods_example :
    (includes (period_of 86399000) (lookup_periods 86401000) ≡ true)
    × (includes (period_of 86401000) (publish_periods 86399000) ≡ true)
publish_periods-lookup_periods_example =
    publish_periods-lookup_periods 86399000 86401000 (omega arith) (omega arith)
