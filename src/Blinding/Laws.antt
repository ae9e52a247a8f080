-- ===== src/Blinding/Laws.antt =====
-- About the blinded keys of lib/private/blinded-presence.js and the signatures under them.
use hyperdht.Prelude.{
  ℕ, ◌≡◌, refl, sym, ap, ◌∙◌, Bool, true, ◌++◌, length, take, drop, arith, ◌==◌, inl, inr,
}
use hyperdht.Errors.{Result-cases, Error, Result, ok, err, ◌>>◌}
use hyperdht.Dht.{Buffer, equals, equals-eq, equals_refl}
use hyperdht.Blinding.{
  Sodium, Blinded, Signer, check, blinding_scalar_of, blind, derive_blinded_public_key, secret_of,
  create_blinded_signer, nonce_of, challenge, sign_under_blinded,
}

-- The group of the curve: points are added by `plus` and multiplied by scalars with `scale`. A
-- signature of a point and a scalar is right if the base times the scalar is the point plus the key
-- times the challenge.
pub record GroupLaws (s : Sodium) : Type 0 where
  pub plus : Buffer → Buffer → Buffer
  pub scale : Buffer → Buffer → Buffer
  pub multiply-scale : (h p q : Buffer) → s.multiply h p ≡ ok q → q ≡ scale h p
  pub base-mul : (h a : Buffer) → s.base (s.scalar_mul h a) ≡ scale h (s.base a)
  pub base-add : (r x : Buffer) → s.base (s.scalar_add r x) ≡ plus (s.base r) (s.base x)
  pub verify-equation :
      (point scalar key message r : Buffer)
      → point ≡ s.base r
      → s.base scalar ≡ plus point (scale (challenge s point key message) key)
      → s.verify (point ++ scalar) message key ≡ true

-- A check that was passed.
passes :
    {A : Type 0} (b : Bool) (e : Error) (next : Result A) (a : A)
    → (check b (err e) >> next) ≡ ok a
    → (b ≡ true) × (next ≡ ok a)
passes b e next a h = ground (arith, h)

signer_of : Sodium → Buffer → Blinded → Signer
signer_of s secret_key blinded = record {
  live = true;
  public_key = blinded.public_key;
  secret_scalar = s.scalar_mul blinded.blinding_scalar (secret_of s secret_key);
  nonce_root = take 32 (drop 32 (s.sha512 (take 32 secret_key)));
  blinding_scalar = blinded.blinding_scalar;
}

module _ (s : Sodium) (laws : GroupLaws s) where
  pub created :
      (identity secret_key : Buffer) (period : ℕ) (k : Signer)
      → create_blinded_signer s identity secret_key period ≡ ok k
      → (derive_blinded_public_key s identity period ≡ ok k.public_key)
        × (s.base k.secret_scalar ≡ k.public_key)
  unfolding create_blinded_signer derive_blinded_public_key signer_of
  created identity secret_key period k e = elim (Result-cases (blind s identity period)) [
    | inl (blinded, there) ↦
        let scalar = s.scalar_mul blinded.blinding_scalar (secret_of s secret_key) in
        let same : equals (s.base scalar) blinded.public_key ≡ true = ground (arith, there, e) in
        let made : k ≡ signer_of s secret_key blinded = ground (arith, there, e) in
        let base_same = equals-eq (s.base scalar) blinded.public_key same in
        ground (arith, there, made, base_same)
    | inr (x, there) ↦ absurd (ground (arith, there, e))
  ]

  -- What a signer of a key and a period signs is right for the blinded key that a reader derives from
  -- the identity and the period.
  pub verify-sign_under_blinded :
      (identity secret_key message key : Buffer) (period : ℕ) (k : Signer)
      → create_blinded_signer s identity secret_key period ≡ ok k
      → derive_blinded_public_key s identity period ≡ ok key
      → s.verify (sign_under_blinded s k message) message key ≡ true
  unfolding sign_under_blinded
  verify-sign_under_blinded identity secret_key message key period k e derived =
      let parts = created identity secret_key period k e in
      let same : k.public_key ≡ key = ground (arith, parts.0, derived) in
      let r = nonce_of s k message in
      let c = challenge s (s.base r) k.public_key message in
      let equation =
        laws.base-add r (s.scalar_mul c k.secret_scalar)
        ∙ ap (laws.plus (s.base r)) (laws.base-mul c k.secret_scalar ∙ ap (laws.scale c) parts.1) in
      ap (s.verify (sign_under_blinded s k message) message) (sym same)
      ∙ laws.verify-equation (s.base r) (s.scalar_add r (s.scalar_mul c k.secret_scalar))
          k.public_key message r refl equation

  blind_parts :
      (identity : Buffer) (period : ℕ) (b : Blinded)
      → blind s identity period ≡ ok b
      → ((length identity == 32) ≡ true) × (s.multiply b.blinding_scalar identity ≡ ok b.public_key)
  unfolding blind
  blind_parts identity period b e =
      elim (Result-cases (s.multiply (blinding_scalar_of s identity period) identity)) [
        | inl (point, there) ↦ (ground (arith, there, e), ground (arith, there, e))
        | inr (x, there) ↦ absurd (ground (arith, there, e))
      ]

  pub derived_size :
      (identity key : Buffer) (period : ℕ)
      → derive_blinded_public_key s identity period ≡ ok key
      → (length identity == 32) ≡ true
  unfolding derive_blinded_public_key
  derived_size identity key period e = elim (Result-cases (blind s identity period)) [
    | inl (b, there) ↦ (blind_parts identity period b there).0
    | inr (x, there) ↦ absurd (ground (arith, there, e))
  ]

  -- The owner of an identity, whose public key is the base times its secret scalar, gets a signer for
  -- each period for which a reader derives a key.
  pub create_blinded_signer-live :
      (identity secret_key key : Buffer) (period : ℕ)
      → identity ≡ s.base (secret_of s secret_key)
      → length secret_key ≡ 64
      → derive_blinded_public_key s identity period ≡ ok key
      → (k : Signer) × (create_blinded_signer s identity secret_key period ≡ ok k)
        × (k.public_key ≡ key)
        × (k.live ≡ true)
  unfolding create_blinded_signer derive_blinded_public_key signer_of
  create_blinded_signer-live identity secret_key key period own long derived =
      elim (Result-cases (blind s identity period)) [
        | inl (blinded, there) ↦
            let parts = blind_parts identity period blinded there in
            let h = blinded.blinding_scalar in
            let same : s.base (s.scalar_mul h (secret_of s secret_key)) ≡ blinded.public_key =
              laws.base-mul h (secret_of s secret_key)
              ∙ ap (laws.scale h) (sym own)
              ∙ sym (laws.multiply-scale h identity blinded.public_key parts.1) in
            let equal =
              ap (λ p. equals p blinded.public_key) same ∙ equals_refl blinded.public_key in
            (
              signer_of s secret_key blinded,
              ground (arith, parts.0, long, there, equal),
              ground (arith, there, derived),
              refl,
            )
        | inr (x, there) ↦ absurd (ground (arith, there, derived))
      ]
