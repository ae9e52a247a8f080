-- ===== src/Blinding.antt =====
-- lib/private/blinded-presence.js: keys that are blinded for a period, and signatures under them.
-- The calls of the package sodium are parameters. A buffer is a list of bytes.
pub mod Laws
pub mod Tests
use Prim.Native.Nat.{bit_and, bit_or}
use hyperdht.Prelude.{
  ℕ, ◌≤◌, ◌≡◌, Bool, true, false, not, ◌&&◌, ◌||◌, Option, none, some, List, [], ◌∷◌, ◌++◌, length,
  take, drop, ltb, ◌==◌, if◌then◌else◌,
}
use hyperdht.Errors.{Result, ok, err, invalid_key, invalid_descriptor, unauthorized, ◌>>=◌, ◌>>◌}
use hyperdht.Wire.{write_uint32}
use hyperdht.Cells.Bytes.{write_uint64, max_uint64}
use hyperdht.Dht.{Buffer, equals}

-- `multiply` may throw. The domains are the constants `BLIND_DOMAIN` and `NONCE_DOMAIN`.
pub record Sodium : Type 0 where
  pub sha512 : Buffer → Buffer
  pub scalar_reduce : Buffer → Buffer
  pub scalar_mul : Buffer → Buffer → Buffer
  pub scalar_add : Buffer → Buffer → Buffer
  pub base : Buffer → Buffer
  pub multiply : Buffer → Buffer → Result Buffer
  pub is_valid_point : Buffer → Bool
  pub verify : Buffer → Buffer → Buffer → Bool
  pub blind_domain : Buffer
  pub nonce_domain : Buffer

-- `PERIOD_MS`
abbrev pub period_ms : ℕ
period_ms = 86400000

-- `periodBytes(period)`
unfoldable pub period_bytes : ℕ → Buffer
period_bytes period = write_uint64 period ++ write_uint32 period_ms

-- `isAllZero(buffer)`
abbrev pub is_all_zero : Buffer → Bool
is_all_zero [] = true
is_all_zero (b ∷ rest) = b == 0 && is_all_zero rest

-- `clampScalar(scalar)`, at the first byte and the byte 31.
abbrev clamp_at : ℕ → Buffer → Buffer
clamp_at i [] = []
clamp_at i (b ∷ rest) = elim i [
  | ℕ.zero ↦ bit_or (bit_and b 63) 64 ∷ rest
  | ℕ.suc j ↦ b ∷ clamp_at j rest
]

unfoldable pub clamp_scalar : Buffer → Buffer
clamp_scalar [] = []
clamp_scalar (b ∷ rest) = bit_and b 248 ∷ clamp_at 30 rest

abbrev pub check : Bool → Result (Unit {0}) → Result (Unit {0})
check true otherwise = ok tt
check false otherwise = otherwise

-- The blinded point and the scalar that blinds, of `deriveBlindingMaterial`.
pub record Blinded : Type 0 where
  pub public_key : Buffer
  pub blinding_scalar : Buffer

module _ (s : Sodium) where
  -- The scalar of `deriveBlindingMaterial`.
  unfoldable pub blinding_scalar_of : Buffer → ℕ → Buffer
  unfolding period_bytes
  blinding_scalar_of identity period =
      s.scalar_reduce (s.sha512 (s.blind_domain ++ (identity ++ period_bytes period)))

  -- `deriveBlindingMaterial(identityPublicKey, period, null)`
  unfoldable pub blind : Buffer → ℕ → Result Blinded
  unfolding blinding_scalar_of
  blind identity period = do
    check (length identity == 32) (err invalid_key)
    check (not (ltb max_uint64 period)) (err invalid_descriptor)
    check (not (is_all_zero (blinding_scalar_of identity period))) (err invalid_key)
    point ← s.multiply (blinding_scalar_of identity period) identity
    check (s.is_valid_point point) (err invalid_key)
    ok (record { public_key = point; blinding_scalar = blinding_scalar_of identity period })

  -- `deriveBlindedPublicKey(identityPublicKey, period)`
  unfoldable pub derive_blinded_public_key : Buffer → ℕ → Result Buffer
  unfolding blind
  derive_blinded_public_key identity period = do
    blinded ← blind identity period
    ok blinded.public_key

-- What `createBlindedSigner` keeps of its signer.
pub record Signer : Type 0 where
  pub live : Bool
  pub public_key : Buffer
  pub secret_scalar : Buffer
  pub nonce_root : Buffer
  pub blinding_scalar : Buffer

module _ (s : Sodium) where
  -- The clamped scalar of a secret key, whose first half is the seed.
  unfoldable pub secret_of : Buffer → Buffer
  unfolding clamp_scalar
  secret_of secret_key = clamp_scalar (take 32 (s.sha512 (take 32 secret_key)))

  -- `createBlindedSigner(identityKeyPair, period)`
  unfoldable pub create_blinded_signer : Buffer → Buffer → ℕ → Result Signer
  unfolding secret_of blind
  create_blinded_signer identity secret_key period = do
    check (length identity == 32) (err invalid_key)
    check (length secret_key == 64) (err invalid_key)
    blinded ← blind s identity period
    let scalar = s.scalar_mul blinded.blinding_scalar (secret_of secret_key)
    check (equals (s.base scalar) blinded.public_key) (err invalid_key)
    ok (record {
      live = true;
      public_key = blinded.public_key;
      secret_scalar = scalar;
      nonce_root = take 32 (drop 32 (s.sha512 (take 32 secret_key)));
      blinding_scalar = blinded.blinding_scalar;
    })

  -- The secret nonce of a message.
  unfoldable pub nonce_of : Signer → Buffer → Buffer
  nonce_of k message =
      s.scalar_reduce
        (s.sha512 (s.nonce_domain ++ (k.nonce_root ++ (k.blinding_scalar ++ message))))

  -- The scalar that binds the point of a nonce, a key and a message.
  unfoldable pub challenge : Buffer → Buffer → Buffer → Buffer
  challenge point key message = s.scalar_reduce (s.sha512 (point ++ (key ++ message)))

  -- `signUnderBlinded(state, message)`
  unfoldable pub sign_under_blinded : Signer → Buffer → Buffer
  unfolding nonce_of challenge
  sign_under_blinded k message =
      let r = nonce_of k message in
      let point = s.base r in
      point ++ s.scalar_add r (s.scalar_mul (challenge point k.public_key message) k.secret_scalar)

  -- The method `sign` of a signer.
  unfoldable pub sign : Signer → Buffer → Result Buffer
  unfolding sign_under_blinded
  sign k message = if k.live then ok (sign_under_blinded k message) else err unauthorized

-- `clear(buffer)`
abbrev pub cleared : Buffer → Buffer
cleared [] = []
cleared (b ∷ rest) = 0 ∷ cleared rest

-- The method `destroy` of a signer.
unfoldable pub destroy : Signer → Signer
destroy k =
    if k.live
    then record {
      live = false;
      public_key = cleared k.public_key;
      secret_scalar = cleared k.secret_scalar;
      nonce_root = cleared k.nonce_root;
      blinding_scalar = cleared k.blinding_scalar;
    }
    else k
