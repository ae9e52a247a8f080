-- ===== src/Blinding/Tests.antt =====
-- About the blinded keys of lib/private/blinded-presence.js: a group on the first bytes of buffers
-- of 32 bytes, and a signer in it.
use hyperdht.Prelude.{
  ℕ, zero, suc, ◌+◌, ◌*◌, ◌%◌, ◌≡◌, refl, sym, ap, ap₂, ◌∙◌, Bool, true, [], ◌∷◌, ◌++◌, arith,
  length, take, drop, get_or, length-append, length-take,
}
use hyperdht.Errors.{ok}
use hyperdht.Cells.Bytes.{take_exact, drop_exact}
use hyperdht.Dht.{Buffer, equals, equals_refl}
use hyperdht.Blinding.{
  Sodium, Signer, secret_of, clamp_scalar, blinding_scalar_of, blind, period_bytes, challenge,
  derive_blinded_public_key, create_blinded_signer,
}
use hyperdht.Blinding.Laws.{GroupLaws, create_blinded_signer-live}

abbrev pub fill : ℕ → Buffer
fill zero = []
fill (suc n) = 0 ∷ fill n

-- The first 32 bytes, with zeros where there are fewer.
abbrev pub pad : Buffer → Buffer
pad b = take 32 (b ++ fill 32)

abbrev first : Buffer → ℕ
first b = get_or b 0 0

abbrev times : Buffer → Buffer → Buffer
times h p = pad (first h * first p % 251 ∷ [])

abbrev sum : Buffer → Buffer → Buffer
sum p q = pad ((first p + first q) % 251 ∷ [])

abbrev twice : Buffer → Buffer
twice b = b ++ b

abbrev right_point : Buffer → Buffer → Buffer → Buffer
right_point p message key = sum p (times (pad (twice (p ++ (key ++ message)))) key)

abbrev is_right : Buffer → Buffer → Buffer → Buffer → Bool
is_right p scalar message key = equals (pad scalar) (right_point p message key)

abbrev pub simple_sodium : Sodium
simple_sodium = record {
  sha512 = twice;
  scalar_reduce = pad;
  scalar_mul = times;
  scalar_add = sum;
  base = pad;
  multiply = λ h p. ok (times h p);
  is_valid_point = λ p. true;
  verify = λ signature message key. is_right (take 32 signature) (drop 32 signature) message key;
  blind_domain = 3 ∷ [];
  nonce_domain = 4 ∷ [];
}

first-pad : (b : Buffer) → first (pad b) ≡ first b
first-pad [] = refl
first-pad (x ∷ b) = refl

pub length-pad : (b : Buffer) → length (pad b) ≡ 32
length-pad b = length-take 32 (b ++ fill 32) (omega (arith, length-append b (fill 32)))

verified :
    (point scalar key message : Buffer)
    → length point ≡ 32
    → pad scalar ≡ right_point point message key
    → simple_sodium.verify (point ++ scalar) message key ≡ true
verified point scalar key message long equation =
    ap₂ (λ p d. is_right p d message key) (take_exact 32 point scalar long)
      (drop_exact 32 point scalar long)
    ∙ ap (λ q. equals q (right_point point message key)) equation
    ∙ equals_refl (right_point point message key)

pub simple_group : GroupLaws simple_sodium
unfolding challenge
simple_group = record {
  plus = sum;
  scale = times;
  multiply-scale = λ h p q e. ground (arith, e);
  base-mul = λ h a. ap (λ x. pad (first h * x % 251 ∷ [])) (sym (first-pad a));
  base-add = λ r x. ap₂ (λ a b. pad ((a + b) % 251 ∷ [])) (sym (first-pad r)) (sym (first-pad x));
  verify-equation = λ point scalar key message r made equation.
      verified point scalar key message (ap length made ∙ length-pad r) equation;
}

abbrev pub secret_key : Buffer
secret_key = 9 ∷ fill 63

abbrev pub identity : Buffer
unfolding secret_of clamp_scalar
identity = pad (secret_of simple_sodium secret_key)

abbrev pub blinded_key : Buffer
blinded_key = pad (24 ∷ [])

blinded_key_derived : derive_blinded_public_key simple_sodium identity 20000 ≡ ok blinded_key
unfolding derive_blinded_public_key blind blinding_scalar_of period_bytes identity
blinded_key_derived = refl

create_blinded_signer-live_example :
    (k : Signer) × (create_blinded_signer simple_sodium identity secret_key 20000 ≡ ok k)
    × (k.public_key ≡ blinded_key)
    × (k.live ≡ true)
unfolding secret_of identity
create_blinded_signer-live_example =
    create_blinded_signer-live simple_sodium simple_group identity secret_key blinded_key 20000 refl
      refl blinded_key_derived

abbrev pub signer : Signer
signer = record {
  live = true;
  public_key = blinded_key;
  secret_scalar = pad (24 ∷ []);
  nonce_root = 9 ∷ fill 31;
  blinding_scalar = 3 ∷ take 31 identity;
}

pub signer_created : create_blinded_signer simple_sodium identity secret_key 20000 ≡ ok signer
unfolding create_blinded_signer blind blinding_scalar_of period_bytes secret_of clamp_scalar
signer_created = refl
