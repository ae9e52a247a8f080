-- ===== src/Messages/Encoding.antt =====
-- The interface of the package compact-encoding that lib/messages.js uses. Bytes and characters are
-- numbers. An encoder writes in front of the bytes that are written after it, and a decoder returns
-- its value and the bytes that it leaves, or throws, which is `none`.
use hyperdht.Prelude.{
  ℕ, ◌+◌, ◌≤◌, ◌<◌, ◌≡◌, refl, ap, Bool, true, false, Option, none, some, List, [], ◌∷◌, length,
  All, arith,
}
use hyperdht.Values.{max_safe_integer}

abbrev pub Reader : Type 0 → Type 0
Reader A = List ℕ → Option (A × List ℕ)

infixl 5 ◌>>=◌
unfoldable pub ◌>>=◌ : {A B : Type 0} → Reader A → (A → Reader B) → Reader B
◌>>=◌ m f s = elim (m s) [ none ↦ none | some (a, rest) ↦ f a rest ]

abbrev pub pure : {A : Type 0} → A → Reader A
pure a s = some (a, s)

-- `preencode` adds a number of bytes to `state.end`.
pub record Encoding (A : Type 0) : Type 0 where
  pub preencode : A → ℕ
  pub encode : A → List ℕ → List ℕ
  pub decode : Reader A

pub record Address : Type 0 where
  pub host : ℕ
  pub port : ℕ

-- The encodings of the package. A buffer that is null or empty is `none`.
pub record Compact : Type 1 where
  pub uint : Encoding ℕ
  pub buffer : Encoding (Option (List ℕ))
  pub fixed32 : Encoding (List ℕ)
  pub fixed64 : Encoding (List ℕ)
  pub string : Encoding (List ℕ)
  pub ipv4 : Encoding Address
  pub ipv6 : Encoding Address
  pub raw : Encoding (List ℕ)
  pub array : {A : Type 0} → Encoding A → Encoding (List A)

-- A decoder meets a value a at the bytes x, which takes k of them and leaves y.
pub record Part {A : Type 0} (p : Reader A) (x : List ℕ) (a : A) (y : List ℕ) (k : ℕ) : Type 0 where
  pub read : p x ≡ some (a, y)
  pub size : length x ≡ k + length y

-- A value of P is read back, and takes the bytes that `preencode` counts.
abbrev pub IsLawful : {A : Type 0} → Encoding A → (A → Type 0) → Type 0
IsLawful {A} c P =
    (a : A) (rest : List ℕ) → P a → Part c.decode (c.encode a rest) a rest (c.preencode a)

abbrev pub IsUint : ℕ → Type 0
IsUint n = n ≤ max_safe_integer

-- A number that takes one byte.
abbrev pub IsSmall : ℕ → Type 0
IsSmall n = n < 253

abbrev pub IsBuffer : Option (List ℕ) → Type 0
IsBuffer none = Unit
IsBuffer (some b) = 0 < length b

abbrev pub IsPort : Address → Type 0
IsPort a = a.port < 65536

-- What the package promises.
pub record Laws (c : Compact) (IsIpv4 IsIpv6 : Address → Type 0) : Type 1 where
  pub uint : IsLawful c.uint IsUint
  pub uint_small : (n : ℕ) → IsSmall n → c.uint.preencode n ≡ 1
  pub buffer : IsLawful c.buffer IsBuffer
  pub fixed32 : IsLawful c.fixed32 (λ b. length b ≡ 32)
  pub fixed32_size : (b : List ℕ) → c.fixed32.preencode b ≡ 32
  pub fixed64 : IsLawful c.fixed64 (λ b. length b ≡ 64)
  pub fixed64_size : (b : List ℕ) → c.fixed64.preencode b ≡ 64
  pub string : IsLawful c.string (λ s. Unit {0})
  pub ipv4 : IsLawful c.ipv4 IsIpv4
  pub ipv4_size : (a : Address) → c.ipv4.preencode a ≡ 6
  pub ipv6 : IsLawful c.ipv6 IsIpv6
  pub array :
      {A : Type 0} (e : Encoding A) (P : A → Type 0) → IsLawful e P → IsLawful (c.array e) (All P)

-- `if (m.x) x.encode(state, m.x)`, and its count in `preencode`.
unfoldable pub put : {A : Type 0} → Encoding A → Option A → List ℕ → List ℕ
put c none rest = rest
put c (some a) rest = c.encode a rest

unfoldable pub count : {A : Type 0} → Encoding A → Option A → ℕ
count c none = 0
count c (some a) = c.preencode a

-- `flag ? x.decode(state) : null`
unfoldable pub take_if : {A : Type 0} → Encoding A → Bool → Reader (Option A)
take_if c true s = elim (c.decode s) [ none ↦ none | some (a, rest) ↦ some (some a, rest) ]
take_if c false s = some (none, s)

abbrev pub is_some : {A : Type 0} → Option A → Bool
is_some none = false
is_some (some a) = true

abbrev pub Given : {A : Type 0} → (A → Type 0) → Option A → Type 0
Given P none = Unit
Given P (some a) = P a

pub Part-put :
    {A : Type 0} (c : Encoding A) (P : A → Type 0) (law : IsLawful c P) (b : Bool) (o : Option A)
    (rest : List ℕ)
    → b ≡ is_some o
    → Given P o
    → Part (take_if c b) (put c o rest) o rest (count c o)
unfolding take_if put count
Part-put c P law b none rest e h = record { read = ground arith; size = omega arith }
Part-put c P law b (some a) rest e h =
    let part = law a rest h in record { read = ground (arith, part.read); size = part.size }

-- `if (m.x && m.x.length) x.encode(state, m.x)`, and reading it, where the list is empty otherwise.
abbrev pub is_filled : {A : Type 0} → List A → Bool
is_filled [] = false
is_filled (a ∷ rest) = true

unfoldable pub put_filled : {A : Type 0} → Encoding (List A) → List A → List ℕ → List ℕ
put_filled c [] rest = rest
put_filled c (a ∷ as_) rest = c.encode (a ∷ as_) rest

unfoldable pub count_filled : {A : Type 0} → Encoding (List A) → List A → ℕ
count_filled c [] = 0
count_filled c (a ∷ as_) = c.preencode (a ∷ as_)

unfoldable pub take_filled : {A : Type 0} → Encoding (List A) → Bool → Reader (List A)
take_filled c true s = c.decode s
take_filled c false s = some ([], s)

pub Part-put_filled :
    {A : Type 0} (c : Encoding (List A)) (P : List A → Type 0) (law : IsLawful c P) (b : Bool)
    (l : List A) (rest : List ℕ)
    → b ≡ is_filled l
    → P l
    → Part (take_filled c b) (put_filled c l rest) l rest (count_filled c l)
unfolding take_filled put_filled count_filled
Part-put_filled c P law b [] rest e h = record { read = ground arith; size = omega arith }
Part-put_filled c P law b (a ∷ l) rest e h =
    let part = law (a ∷ l) rest h in record { read = ground (arith, part.read); size = part.size }

-- A step of a decoder, and its end.
pub Part-then :
    {A B : Type 0} {p : Reader A} (f : A → Reader B) {x y z : List ℕ} {a : A} {b : B} {k n : ℕ}
    → Part p x a y k
    → Part (f a) y b z n
    → Part (p >>= f) x b z (k + n)
unfolding ◌>>=◌
Part-then f first rest = record {
  read = ground (arith, first.read, rest.read);
  size = omega (arith, first.size, rest.size);
}

pub Part-pure : {A : Type 0} (a : A) (x : List ℕ) → Part (pure a) x a x 0
Part-pure a x = record { read = refl; size = omega arith }

pub Part-ends : {A : Type 0} (a b : A) (x : List ℕ) → a ≡ b → Part (pure a) x b x 0
Part-ends a b x same = record { read = ap (λ c. some (c, x)) same; size = omega arith }

pub resized :
    {A : Type 0} {p : Reader A} {x : List ℕ} {a : A} {y : List ℕ} {k n : ℕ}
    → Part p x a y k
    → k ≡ n
    → Part p x a y n
resized part same = record { read = part.read; size = omega (arith, part.size) }
