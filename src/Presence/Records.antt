-- ===== src/Presence/Records.antt =====
-- About the presence records of lib/private/blinded-presence.js: what a reader opens.
use hyperdht.Prelude.{
  ℕ, ◌≤◌, ◌≡◌, refl, sym, ap, ap₂, ◌∙◌, Bool, true, not, some, ◌∷◌, ◌++◌, arith, length, take, drop,
  get_or, length-append, ltb, ◌==◌, inl, inr,
}
use hyperdht.Errors.{Result-cases, Error, Result, ok, err, ◌>>=◌}
use hyperdht.Wire.{write_uint32, read_uint32}
use hyperdht.Cells.Bytes.{max_uint64, take_exact, drop_exact}
use hyperdht.Dht.{Buffer, Node}
use hyperdht.Persistent.{mutable_signed, verify_mutable}
use hyperdht.Blinding.{
  Sodium, Signer, check, create_blinded_signer, derive_blinded_public_key, sign_under_blinded, sign,
  nonce_of, challenge,
}
use hyperdht.Blinding.Laws.{GroupLaws, created, derived_size, verify-sign_under_blinded}
use hyperdht.Presence.{
  Entry, encode_body, open_body, Suite, Published, derive_reader_key, build_associated_data,
  encode_presence_record, sign_mutable, open_presence_record, max_uint32, presence_record_size,
  unless_null,
}
use hyperdht.Presence.Body.{open_body-encode_body}

-- A cipher opens what it sealed with the same key, nonce and associated data.
pub record SuiteLaws (u : Suite) : Type 0 where
  pub open-seal :
      (key prefix associated text : Buffer)
      → u.open_ key prefix associated (u.seal key prefix associated text) ≡ some text

-- The sizes of points and scalars, and one function that verifies.
pub record SizeLaws (n : Node) (s : Sodium) : Type 0 where
  pub length-base : (r : Buffer) → length (s.base r) ≡ 32
  pub length-scalar_add : (r x : Buffer) → length (s.scalar_add r x) ≡ 32
  pub same_verify :
      (signature message key : Buffer)
      → n.verify signature message key ≡ s.verify signature message key

read-write : (n : ℕ) (rest : Buffer) → n ≤ max_uint32 → read_uint32 (write_uint32 n ++ rest) 0 ≡ n
unfolding read_uint32 write_uint32
read-write n rest h = omega arith

pass :
    {A : Type 0} (b : Bool) (e : Error) (next x : Result A)
    → b ≡ true
    → next ≡ x
    → (check b (err e) >>= λ _. next) ≡ x
pass b e next x h g = ground (arith, h, g)

not_above : (a b : ℕ) → b ≤ a → not (ltb a b) ≡ true
not_above a b h = ground (arith, h)

equal : (a b : ℕ) → a ≡ b → (a == b) ≡ true
equal a b h = ground (arith, h)

bind_ok :
    {A B : Type 0} (r : Result A) (next : A → Result B) (a : A) (x : Result B)
    → r ≡ ok a
    → next a ≡ x
    → (r >>= next) ≡ x
bind_ok r next a x h g = ap (λ o. o >>= next) h ∙ g

module _ (u : Suite) where
  -- What a record that was published is made of.
  pub record Made (k : Signer) (period revision : ℕ) (secret : Buffer) (entry : Entry)
      (prefix : Buffer) (p : Published) : Type 0 where
    pub body : Buffer
    pub text : Buffer
    pub encoded : encode_body period entry ≡ ok body
    pub sealed :
        text
        ≡ u.seal
            (derive_reader_key u secret k.public_key period)
            prefix
            (build_associated_data u k.public_key period revision)
            body
    pub value_made : p.value ≡ 1 ∷ (write_uint32 revision ++ (prefix ++ text))
    pub key_made : p.public_key ≡ k.public_key
    pub key_size : length k.public_key ≡ 32
    pub seq_made : p.seq ≡ revision
    pub small_period : period ≤ max_uint64
    pub small_revision : revision ≤ max_uint32
    pub secret_size : length secret ≡ 32
    pub text_size : length text ≡ 874

  pub made :
      (k : Signer) (period revision : ℕ) (secret : Buffer) (entry : Entry) (prefix : Buffer)
      (p : Published)
      → encode_presence_record u k period revision secret entry prefix ≡ ok p
      → Made k period revision secret entry prefix p
  unfolding encode_presence_record
  made k period revision secret entry prefix p e = elim (Result-cases (encode_body period entry)) [
    | inl (body, there) ↦ record {
      body = body;
      text =
          u.seal (derive_reader_key u secret k.public_key period) prefix
            (build_associated_data u k.public_key period revision) body;
      encoded = there;
      sealed = refl;
      value_made = ground (arith, there, e);
      key_made = ground (arith, there, e);
      key_size = ground (arith, there, e);
      seq_made = ground (arith, there, e);
      small_period = ground (arith, there, e);
      small_revision = ground (arith, there, e);
      secret_size = ground (arith, there, e);
      text_size = ground (arith, there, e);
    }
    | inr (x, there) ↦ absurd (ground (arith, there, e))
  ]

  module _ (n : Node) (s : Sodium) where
    signed :
        (k : Signer) (p : Published) (seq : ℕ) (value key signature : Buffer)
        → sign_mutable u n s k p seq value key ≡ ok signature
        → signature ≡ sign_under_blinded s k (mutable_signed n p.seq (some p.value))
    unfolding sign_mutable sign
    signed k p seq value key signature e = ground (arith, e)

    -- The calls of `openPresenceRecord` that succeed, one after the other.
    opens :
        (identity : Buffer) (period revision : ℕ) (secret value signature key plaintext : Buffer)
        (entry : Entry)
        → (length identity == 32) ≡ true
        → period ≤ max_uint64
        → revision ≤ max_uint32
        → length secret ≡ 32
        → length value ≡ presence_record_size
        → length signature ≡ 64
        → derive_blinded_public_key s identity period ≡ ok key
        → get_or value 0 0 ≡ 1
        → read_uint32 (drop 1 value) 0 ≡ revision
        → verify_mutable n signature revision (some value) key ≡ true
        → u.open_
            (derive_reader_key u secret key period)
            (take 16 (drop 5 value))
            (build_associated_data u key period revision)
            (drop 21 value)
          ≡ some plaintext
        → open_body period plaintext ≡ ok entry
        → open_presence_record u n s identity period revision secret value signature
          ≡ ok (record { period = period; revision = revision; entry = entry })
    unfolding open_presence_record
    opens identity period revision secret value signature key plaintext entry h0 h1 h2 h3 h4 h5 h6
          h7 h8 h9 h10 h11 =
        pass _ _ _ _ h0 (
          pass _ _ _ _ (not_above _ _ h1) (
            pass _ _ _ _ (not_above _ _ h2) (
              pass _ _ _ _ (equal _ _ h3) (
                pass _ _ _ _ (equal _ _ h4) (
                  pass _ _ _ _ (equal _ _ h5) (
                    bind_ok _ _ _ _ h6 (
                      pass _ _ _ _ (equal _ _ h7) (
                        pass _ _ _ _ (equal _ _ h8) (
                          pass _ _ _ _ h9 (
                            bind_ok _ _ _ _ (ap unless_null h10)
                              (bind_ok _ _ _ _ h11 refl)))))))))))

    length-sign_under_blinded :
        SizeLaws n s
        → (k : Signer) (message : Buffer) → length (sign_under_blinded s k message) ≡ 64
    unfolding sign_under_blinded
    length-sign_under_blinded sizes k message =
        let r = nonce_of s k message in
        let x = s.scalar_mul (challenge s (s.base r) k.public_key message) k.secret_scalar in
        omega (
          arith,
          length-append (s.base r) (s.scalar_add r x),
          sizes.length-base r,
          sizes.length-scalar_add r x,
        )

    -- A record that was signed for a blinded key verifies under it.
    pub verify_mutable-sign_mutable :
        GroupLaws s
        → SizeLaws n s
        → (identity secret_key value public_key signature : Buffer) (period seq : ℕ) (k : Signer)
          (p : Published)
        → create_blinded_signer s identity secret_key period ≡ ok k
        → sign_mutable u n s k p seq value public_key ≡ ok signature
        → verify_mutable n signature p.seq (some p.value) k.public_key ≡ true
    unfolding verify_mutable
    verify_mutable-sign_mutable group sizes identity secret_key value public_key signature period
          seq k p owns sent =
        let message = mutable_signed n p.seq (some p.value) in
        sizes.same_verify signature message k.public_key
        ∙ ap (λ x. s.verify x message k.public_key) (signed k p seq value public_key signature sent)
        ∙ verify-sign_under_blinded s group identity secret_key message k.public_key period k owns
            (created s group identity secret_key period k owns).0

    pub length-signature :
        SizeLaws n s
        → (k : Signer) (p : Published) (seq : ℕ) (value key signature : Buffer)
        → sign_mutable u n s k p seq value key ≡ ok signature
        → length signature ≡ 64
    length-signature sizes k p seq value key signature e =
        ap length (signed k p seq value key signature e)
        ∙ length-sign_under_blinded sizes k (mutable_signed n p.seq (some p.value))

    -- With a group, sizes and a cipher that keep their laws, a reader that knows the identity and the
    -- secret opens what the owner of a signer for the period published and signed, to the same entry.
    pub open_presence_record-encode_presence_record :
        GroupLaws s
        → SizeLaws n s
        → SuiteLaws u
        → (identity secret_key secret prefix value public_key signature : Buffer)
          (period revision seq : ℕ) (entry : Entry) (k : Signer) (p : Published)
        → create_blinded_signer s identity secret_key period ≡ ok k
        → length prefix ≡ 16
        → encode_presence_record u k period revision secret entry prefix ≡ ok p
        → sign_mutable u n s k p seq value public_key ≡ ok signature
        → open_presence_record u n s identity period revision secret p.value signature
          ≡ ok (record { period = period; revision = revision; entry = entry })
    unfolding sign_under_blinded write_uint32
    open_presence_record-encode_presence_record group sizes laws identity secret_key secret prefix
          value public_key signature period revision seq entry k p owns wide published sent =
        let m = made k period revision secret entry prefix p published in
        let key = k.public_key in
        let derived = (created s group identity secret_key period k owns).0 in
        let whole : Buffer = 1 ∷ (write_uint32 revision ++ (prefix ++ m.text)) in
        let message = mutable_signed n revision (some p.value) in
        let written : signature ≡ sign_under_blinded s k message =
          signed k p seq value public_key signature sent
          ∙ ap (λ q. sign_under_blinded s k (mutable_signed n q (some p.value))) m.seq_made in
        let verified : verify_mutable n signature revision (some p.value) key ≡ true =
          ap (λ q. verify_mutable n signature q (some p.value) key) (sym m.seq_made)
          ∙ verify_mutable-sign_mutable group sizes identity secret_key value public_key signature
              period seq k p owns sent in
        let text : drop 21 p.value ≡ m.text =
          ap (drop 21) m.value_made ∙ drop_exact 16 prefix m.text wide in
        let nonce : take 16 (drop 5 p.value) ≡ prefix =
          ap (λ v. take 16 (drop 5 v)) m.value_made ∙ take_exact 16 prefix m.text wide in
        let reader = derive_reader_key u secret key period in
        let associated = build_associated_data u key period revision in
        let opened : u.open_ reader (take 16 (drop 5 p.value)) associated (drop 21 p.value)
            ≡ some m.body =
          ap₂ (λ a t. u.open_ reader a associated t) nonce (text ∙ m.sealed)
          ∙ laws.open-seal reader prefix associated m.body in
        opens identity period revision secret p.value signature key m.body entry
          (derived_size s group identity key period derived) m.small_period m.small_revision
          m.secret_size
          (ap length m.value_made ∙ omega (arith, length-append prefix m.text, wide, m.text_size))
          (ap length written ∙ length-sign_under_blinded sizes k message) derived
          (ap (λ v. get_or v 0 0) m.value_made)
          (ap (λ v. read_uint32 (drop 1 v) 0) m.value_made
            ∙ read-write revision (prefix ++ m.text) m.small_revision)
          verified opened (open_body-encode_body period entry m.body m.encoded)
