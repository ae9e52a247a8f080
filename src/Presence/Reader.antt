-- ===== src/Presence/Reader.antt =====
-- About what `openPresenceRecord` of lib/private/blinded-presence.js returns, and what
-- `resolvePresenceState` asks of a record.
use hyperdht.Prelude.{
  ℕ, ◌≤◌, ◌≡◌, Bool, some, true, false, not, ◌||◌, ◌⊎◌, refl, arith, length, ltb, ◌==◌, take, drop,
  get_or,
}
use hyperdht.Errors.{
  ◌>>◌, Error, Result, ok, err, ◌>>=◌, Ensures, test-Ensures, bind-Ensures, ensured, authentication,
  invalid_key, invalid_descriptor,
}
use hyperdht.Wire.{read_uint32, read_uint16}
use hyperdht.Cells.Bytes.{max_uint64, read_uint64}
use hyperdht.Dht.{Buffer, Node}
use hyperdht.Persistent.{verify_mutable}
use hyperdht.Blinding.{Sodium, check, derive_blinded_public_key, is_all_zero}
use hyperdht.Presence.{
  Entry, entry_of, open_body, valid_tombstone, Suite, Opened, open_presence_record,
  record_digest_of, max_uint32, max_descriptor_bytes, unless_null, presence_record_size,
  scope_period, scope_record, derive_reader_key, build_associated_data,
}
use hyperdht.Presence.History.{IsKnown, IsValid}

check-Ensures :
    {A : Type 0} (P : A → Type 0) (b : Bool) (e : Error) (next : Result A)
    → (b ≡ true → Ensures P next)
    → Ensures P (check b (err e) >>= λ _. next)
check-Ensures P true e next h = h refl
check-Ensures P false e next h = tt

known_scope :
    (scope : ℕ) (target : Buffer)
    → valid_tombstone scope target ≡ true
    → (scope ≡ scope_period) ⊎ (scope ≡ scope_record)
known_scope scope target h = ground (arith, h)

entry_of-IsKnown :
    (type scope : ℕ) (target bytes : Buffer) → Ensures IsKnown (entry_of type scope target bytes)
entry_of-IsKnown type scope target bytes =
    test-Ensures IsKnown (type == 1) _ _
      (λ _.
        test-Ensures IsKnown (not (scope == 0) || not (is_all_zero target)) _ _ (λ _. tt) (λ _. tt))
      λ _.
        test-Ensures IsKnown (type == 2) _ _
          (λ _.
            test-Ensures IsKnown (not (length bytes == 0) || not (valid_tombstone scope target)) _ _
              (λ _. tt) (λ e. known_scope scope target (ground (arith, e))))
          (λ _. tt)

open_body-IsKnown : (period : ℕ) (plaintext : Buffer) → Ensures IsKnown (open_body period plaintext)
unfolding open_body
open_body-IsKnown period plaintext =
    let size = read_uint16 (drop 42 plaintext) 0 in
    let region = drop 44 plaintext in
    test-Ensures IsKnown
      (not (length plaintext == 858)
        || (not (read_uint64 (take 8 (drop 1 plaintext)) == period)
            || (ltb max_descriptor_bytes size || not (is_all_zero (drop size region)))))
      (err invalid_descriptor) _ (λ _. tt)
      λ _.
        entry_of-IsKnown (get_or plaintext 0 0) (get_or plaintext 9 0) (take 32 (drop 10 plaintext))
          (take size region)

-- The period and the revision are those of the call, in their ranges.
IsOpened : ℕ → ℕ → Opened → Type 0
IsOpened period revision o =
    (o.period ≡ period)
    × (o.revision ≡ revision)
    × (o.period ≤ max_uint64)
    × (o.revision ≤ max_uint32)
    × IsKnown o.entry

body-IsOpened :
    (r : Result Entry) (period revision : ℕ)
    → not (ltb max_uint64 period) ≡ true
    → not (ltb max_uint32 revision) ≡ true
    → Ensures IsKnown r
    → Ensures
        (IsOpened period revision)
        (r >>= λ entry. ok (record { period = period; revision = revision; entry = entry }))
unfolding IsOpened
body-IsOpened (ok entry) period revision h g k =
    (refl, refl, ground (arith, h), ground (arith, g), k)
body-IsOpened (err e) period revision h g k = tt

-- A digest has the length of a hash.
digest_size :
    (u : Suite) (value digest : Buffer)
    → ((bytes : Buffer) → length (u.hash bytes) ≡ 32)
    → record_digest_of u value ≡ ok digest
    → length digest ≡ 32
unfolding record_digest_of
digest_size u value digest sizes e = ground (arith, e, sizes value)

module _ (u : Suite) (n : Node) (s : Sodium) where
  value-IsOpened :
      (period revision : ℕ) (secret value signature key : Buffer)
      → not (ltb max_uint64 period) ≡ true
      → not (ltb max_uint32 revision) ≡ true
      → Ensures (IsOpened period revision) (do
        check (get_or value 0 0 == 1) (err invalid_descriptor)
        check (read_uint32 (drop 1 value) 0 == revision) (err invalid_descriptor)
        check (verify_mutable n signature revision (some value) key) (err authentication)
        plaintext ← unless_null (
            u.open_
              (derive_reader_key u secret key period)
              (take 16 (drop 5 value))
              (build_associated_data u key period revision)
              (drop 21 value))
        entry ← open_body period plaintext
        ok (record { period = period; revision = revision; entry = entry }))
  value-IsOpened period revision secret value signature key h g =
      let P = IsOpened period revision in
      check-Ensures P (get_or value 0 0 == 1) invalid_descriptor _ λ _.
        check-Ensures P (read_uint32 (drop 1 value) 0 == revision) invalid_descriptor _ λ _.
          check-Ensures P (verify_mutable n signature revision (some value) key) authentication _
            λ _.
              bind-Ensures P
                (unless_null (
                  u.open_ (derive_reader_key u secret key period) (take 16 (drop 5 value))
                    (build_associated_data u key period revision) (drop 21 value)))
                _
                λ plaintext.
                  body-IsOpened (open_body period plaintext) period revision h g
                    (open_body-IsKnown period plaintext)

  record-IsOpened :
      (identity : Buffer) (period revision : ℕ) (secret value signature : Buffer)
      → Ensures
          (IsOpened period revision)
          (open_presence_record u n s identity period revision secret value signature)
  unfolding open_presence_record IsOpened
  record-IsOpened identity period revision secret value signature =
      let P = IsOpened period revision in
      check-Ensures P (length identity == 32) invalid_key _ λ _.
        check-Ensures P (not (ltb max_uint64 period)) invalid_descriptor _ λ period_fits.
          check-Ensures P (not (ltb max_uint32 revision)) invalid_descriptor _ λ revision_fits.
            check-Ensures P (length secret == 32) invalid_key _ λ _.
              check-Ensures P (length value == presence_record_size) invalid_descriptor _ λ _.
                check-Ensures P (length signature == 64) authentication _ λ _.
                  bind-Ensures P (derive_blinded_public_key s identity period) _ λ key.
                    value-IsOpened period revision secret value signature key period_fits
                      revision_fits

  -- Where the hash has 32 bytes, whatever `openPresenceRecord` returns for a value is with the digest
  -- of this value a record that is valid for `resolvePresenceState`: period, revision and digest are in
  -- range, and the entry is a descriptor, or a tombstone of one of the two scopes.
  pub open_presence_record-IsValid :
      (identity : Buffer) (period revision : ℕ) (secret value signature digest : Buffer)
      (o : Opened)
      → ((bytes : Buffer) → length (u.hash bytes) ≡ 32)
      → open_presence_record u n s identity period revision secret value signature ≡ ok o
      → record_digest_of u value ≡ ok digest
      → IsValid (record {
        period = o.period;
        revision = o.revision;
        record_digest = digest;
        entry = o.entry;
      })
  unfolding IsOpened
  open_presence_record-IsValid identity period revision secret value signature digest o sizes e d =
      let parts =
        ensured (IsOpened period revision)
          (open_presence_record u n s identity period revision secret value signature) o
          (record-IsOpened identity period revision secret value signature) e in
      (parts.2, parts.3, digest_size u value digest sizes d, parts.4)
