-- ===== src/Presence.antt =====
-- lib/private/blinded-presence.js: presence records, which tell readers under a blinded key that an
-- identity can be reached, or that it cannot. The cipher and the hash of lib/private/crypto-suite.js,
-- which call packages, are parameters.
pub mod Body
pub mod Records
pub mod State
pub mod History
pub mod Periods
pub mod Reader
pub mod Lookup
mod Tests
use hyperdht.Prelude.{
  ℕ, ◌+◌, ◌-◌, ◌*◌, ◌/◌, ◌%◌, Bool, true, false, not, ◌&&◌, ◌||◌, Option, none, some, List, [], ◌∷◌,
  ◌++◌, length, take, drop, get_or, ltb, ◌==◌, if◌then◌else◌,
}
use hyperdht.Errors.{
  Error, Result, ok, err, invalid_key, invalid_descriptor, authentication, unauthorized, ◌>>=◌,
  ◌>>◌,
}
use hyperdht.Wire.{write_uint16, write_uint32, read_uint16, read_uint32}
use hyperdht.Cells.Bytes.{write_uint64, read_uint64, max_uint64}
use hyperdht.Dht.{Buffer, Node, equals}
use hyperdht.Persistent.{mutable_signed, verify_mutable}
use hyperdht.Blinding.{Sodium, Signer, derive_blinded_public_key, is_all_zero, sign, check}

-- `PRESENCE_RECORD_SIZE`
abbrev pub presence_record_size : ℕ
presence_record_size = 895

-- `MAX_DESCRIPTOR_BYTES`: the size less the header of 21, the tag of 16 and the fixed part of 44.
abbrev pub max_descriptor_bytes : ℕ
max_descriptor_bytes = 814

abbrev pub max_uint32 : ℕ
max_uint32 = 4294967295

-- `TOMBSTONE_SCOPE`
abbrev pub scope_period : ℕ
scope_period = 1

abbrev pub scope_record : ℕ
scope_record = 2

-- What a record tells: `RECORD_TYPE.DESCRIPTOR` with a descriptor, or `RECORD_TYPE.TOMBSTONE` with a
-- scope and a target of 32 bytes.
pub data Entry : Type 0 where
  descriptor : Buffer → Entry
  tombstone : ℕ → Buffer → Entry

abbrev pub zeros : ℕ → Buffer
zeros ℕ.zero = []
zeros (ℕ.suc n) = 0 ∷ zeros n

-- `isRecordTombstoneTarget(value)`
abbrev pub is_record_tombstone_target : Buffer → Bool
is_record_tombstone_target target = length target == 32 && not (is_all_zero target)

-- The checks of `encodeBody` and `openPresenceRecord` on the scope and the target of a tombstone.
abbrev pub valid_tombstone : ℕ → Buffer → Bool
valid_tombstone scope target =
    (length target == 32)
    && (if scope == scope_record
        then is_record_tombstone_target target
        else scope == scope_period && is_all_zero target)

-- The buffer that `encodeBody` fills: the type, the period, the scope, the target, the length of the
-- descriptor, the descriptor, and zeros up to its end.
abbrev pub body_bytes : ℕ → ℕ → ℕ → Buffer → Buffer → Buffer
body_bytes type period scope target bytes =
    type
    ∷ (write_uint64 period
        ++ (scope
            ∷ (target
                ++ (write_uint16 (length bytes)
                    ++ (bytes ++ zeros (max_descriptor_bytes - length bytes))))))

-- `encodeBody`, as `encodePresenceRecord` calls it.
unfoldable pub encode_body : ℕ → Entry → Result Buffer
encode_body period (descriptor bytes) =
    if ltb max_uint64 period || ltb max_descriptor_bytes (length bytes)
    then err invalid_descriptor
    else ok (body_bytes 1 period 0 (zeros 32) bytes)
encode_body period (tombstone scope target) =
    if ltb max_uint64 period || not (valid_tombstone scope target)
    then err invalid_descriptor
    else ok (body_bytes 2 period scope target [])

-- The type, the scope, the target and the descriptor of a body that was decrypted.
abbrev pub entry_of : ℕ → ℕ → Buffer → Buffer → Result Entry
entry_of type scope target bytes =
    if type == 1
    then (if not (scope == 0) || not (is_all_zero target)
        then err invalid_descriptor
        else ok (descriptor bytes))
    else if type == 2
    then (if not (length bytes == 0) || not (valid_tombstone scope target)
        then err invalid_descriptor
        else ok (tombstone scope target))
    else err invalid_descriptor

-- The part of `openPresenceRecord` that reads the plaintext.
unfoldable pub open_body : ℕ → Buffer → Result Entry
open_body period plaintext =
    let size = read_uint16 (drop 42 plaintext) 0 in
    let region = drop 44 plaintext in
    if not (length plaintext == 858)
      || (not (read_uint64 (take 8 (drop 1 plaintext)) == period)
          || (ltb max_descriptor_bytes size || not (is_all_zero (drop size region))))
    then err invalid_descriptor
    else entry_of (get_or plaintext 0 0) (get_or plaintext 9 0) (take 32 (drop 10 plaintext))
        (take size region)

-- `cryptoSuite.hash` of one part, `seal` and `open` with the counter zero, and the constants
-- `READER_DOMAIN` and `AD_DOMAIN`.
pub record Suite : Type 0 where
  pub hash : Buffer → Buffer
  pub seal : Buffer → Buffer → Buffer → Buffer → Buffer
  pub open_ : Buffer → Buffer → Buffer → Buffer → Option Buffer
  pub reader_domain : Buffer
  pub ad_domain : Buffer

abbrev pub unless_null : Option Buffer → Result Buffer
unless_null none = err authentication
unless_null (some plaintext) = ok plaintext

-- What `encodePresenceRecord` returns.
pub record Published : Type 0 where
  pub public_key : Buffer
  pub seq : ℕ
  pub value : Buffer

-- What `openPresenceRecord` returns.
pub record Opened : Type 0 where
  pub period : ℕ
  pub revision : ℕ
  pub entry : Entry

module _ (u : Suite) where
  -- `deriveReaderKey(readerSecret, publicKey, period)`
  unfoldable pub derive_reader_key : Buffer → Buffer → ℕ → Buffer
  derive_reader_key secret public_key period =
      u.hash (u.reader_domain ++ (secret ++ (public_key ++ write_uint64 period)))

  -- `buildAssociatedData(publicKey, version, period, revision)`
  unfoldable pub build_associated_data : Buffer → ℕ → ℕ → Buffer
  build_associated_data public_key period revision =
      u.ad_domain ++ (public_key ++ (1 ∷ (write_uint64 period ++ write_uint32 revision)))

  -- `encodePresenceRecord(options)`, with the nonce prefix that it draws.
  unfoldable pub encode_presence_record :
      Signer → ℕ → ℕ → Buffer → Entry → Buffer → Result Published
  unfolding derive_reader_key build_associated_data encode_body
  encode_presence_record k period revision secret entry prefix = do
    check (length k.public_key == 32) (err invalid_key)
    check (not (ltb max_uint64 period)) (err invalid_descriptor)
    check (not (ltb max_uint32 revision)) (err invalid_descriptor)
    check (length secret == 32) (err invalid_key)
    body ← encode_body period entry
    let text =
        u.seal (derive_reader_key secret k.public_key period) prefix
          (build_associated_data k.public_key period revision) body
    check (length text == 874) (err invalid_descriptor)
    ok (record {
      public_key = k.public_key;
      seq = revision;
      value = 1 ∷ (write_uint32 revision ++ (prefix ++ text));
    })

  -- `signMutable(seq, recordValue, keyPair)` of what was published, with the key of the pair.
  unfoldable pub sign_mutable :
      (n : Node) → Sodium → Signer → Published → ℕ → Buffer → Buffer → Result Buffer
  unfolding sign mutable_signed
  sign_mutable n s k published seq value public_key = do
    check (seq == published.seq) (err unauthorized)
    check (equals public_key published.public_key) (err unauthorized)
    check (length value == presence_record_size) (err invalid_descriptor)
    check (equals value published.value) (err unauthorized)
    sign s k (mutable_signed n published.seq (some published.value))

  -- `openPresenceRecord(options)`
  unfoldable pub open_presence_record :
      (n : Node) → Sodium → Buffer → ℕ → ℕ → Buffer → Buffer → Buffer → Result Opened
  unfolding derive_blinded_public_key derive_reader_key build_associated_data open_body
      verify_mutable
  open_presence_record n s identity period revision secret value signature = do
    check (length identity == 32) (err invalid_key)
    check (not (ltb max_uint64 period)) (err invalid_descriptor)
    check (not (ltb max_uint32 revision)) (err invalid_descriptor)
    check (length secret == 32) (err invalid_key)
    check (length value == presence_record_size) (err invalid_descriptor)
    check (length signature == 64) (err authentication)
    key ← derive_blinded_public_key s identity period
    check (get_or value 0 0 == 1) (err invalid_descriptor)
    check (read_uint32 (drop 1 value) 0 == revision) (err invalid_descriptor)
    check (verify_mutable n signature revision (some value) key) (err authentication)
    plaintext ← unless_null (
        u.open_ (derive_reader_key secret key period) (take 16 (drop 5 value))
          (build_associated_data key period revision) (drop 21 value))
    entry ← open_body period plaintext
    ok (record { period = period; revision = revision; entry = entry })

  -- `recordDigestOf(value)`
  unfoldable pub record_digest_of : Buffer → Result Buffer
  record_digest_of value =
      if length value == presence_record_size then ok (u.hash value) else err invalid_descriptor
