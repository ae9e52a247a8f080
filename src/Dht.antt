-- ===== src/Dht.antt =====
-- What lib/router.js and lib/persistent.js use of the node and of packages outside the repository:
-- caches, hashes, signatures and requests. A buffer is a list of bytes, and its hex string is the
-- buffer itself.
pub mod Tests
use hyperdht.Prelude.{
  ℕ, ◌≡◌, ◌≢◌, refl, ap₂, Bool, true, false, ◌&&◌, Option, none, some, List, [], ◌∷◌, ◌==◌, arith,
  All, ◌⊎◌, inl, inr, ap, sym, ◌∙◌, Bool-cases, if◌then◌else◌,
}
use hyperdht.Messages.Encoding.{Compact, Encoding, Address}

abbrev pub Buffer : Type 0
Buffer = List ℕ

-- `b4a.equals`
abbrev pub equals : Buffer → Buffer → Bool
equals [] [] = true
equals (x ∷ xs) (y ∷ ys) = x == y && equals xs ys
equals xs ys = false

pub equals-eq : (xs ys : Buffer) → equals xs ys ≡ true → xs ≡ ys
equals-eq [] [] h = refl
equals-eq [] (y ∷ ys) h = ground arith
equals-eq (x ∷ xs) [] h = ground arith
equals-eq (x ∷ xs) (y ∷ ys) h = ap₂ ◌∷◌ (ground arith) (equals-eq xs ys (ground arith))

pub equals_refl : (xs : Buffer) → equals xs xs ≡ true
equals_refl [] = refl
equals_refl (x ∷ xs) = ground (arith, equals_refl xs)

-- The caches of the package xache, and `RecordCache` of record-cache, which keeps under a key one
-- record for each public key. Both may drop entries at any time.
pub record Caches : Type 1 where
  pub Store : Type 0 → Type 0
  pub get : {V : Type 0} → Buffer → Store V → Option V
  pub set : {V : Type 0} → Buffer → V → Store V → Store V
  pub retain : {V : Type 0} → Buffer → V → Store V → Store V
  pub delete : {V : Type 0} → Buffer → Store V → Store V
  pub Records : Type 0
  pub list : Buffer → ℕ → Records → List Buffer
  pub add : Buffer → Buffer → Buffer → Records → Records
  pub remove : Buffer → Buffer → Records → Records

-- An entry is what was last set under its key, if it is kept.
pub record CacheLaws (x : Caches) : Type 1 where
  pub get-set : {V : Type 0} (k : Buffer) (v : V) (s : x.Store V) → x.get k (x.set k v s) ≡ some v
  pub get-set_other :
      {V : Type 0} (j k : Buffer) (v : V) (s : x.Store V)
      → j ≢ k
      → (x.get j (x.set k v s) ≡ none) ⊎ (x.get j (x.set k v s) ≡ x.get j s)

-- A record that is listed was added under its key, and not removed; entries that are deleted leave
-- the others.
pub record RecordLaws (x : Caches) : Type 1 where
  pub get-delete :
      {V : Type 0} (j k : Buffer) (v : V) (s : x.Store V)
      → x.get j (x.delete k s) ≡ some v
      → x.get j s ≡ some v
  pub list-add :
      (P : Buffer → Type 0) (j k public_key r : Buffer) (m : ℕ) (s : x.Records)
      → ((l : ℕ) → All P (x.list j l s))
      → (j ≡ k → P r)
      → All P (x.list j m (x.add k public_key r s))
  pub list-remove :
      (P : Buffer → Type 0) (j k public_key : Buffer) (m : ℕ) (s : x.Records)
      → ((l : ℕ) → All P (x.list j l s))
      → All P (x.list j m (x.remove k public_key s))

-- The package sodium, the namespaces of lib/constants.js, which are computed by a package, the id
-- of the node if it has one, the clock, and the versions of the plugins.
pub record Node : Type 1 where
  pub compact : Compact
  pub caches : Caches
  pub hash : Buffer → Buffer
  pub hash_batch : List Buffer → Buffer
  pub verify : Buffer → Buffer → Buffer → Bool
  pub ns_announce : Buffer
  pub ns_unannounce : Buffer
  pub ns_mutable_put : Buffer
  pub id : Option Buffer
  pub now : ℕ
  pub plugin_version : Buffer → Option ℕ

pub record Request : Type 0 where
  pub target : Option Buffer
  pub token : Option Buffer
  pub value : Option Buffer
  pub from : Address

infixl 5 ◌>>=◌
abbrev pub ◌>>=◌ : {A B : Type 0} → Option A → (A → Option B) → Option B
none >>= f = none
some a >>= f = f a

-- `c.decode`, which leaves bytes behind the value unread, and `decode` of lib/persistent.js and
-- lib/router.js, where a throw is null.
abbrev pub decode : {A : Type 0} → Encoding A → Buffer → Option A
decode e bytes = elim (e.decode bytes) [ none ↦ none | some (a, rest) ↦ some a ]

-- `c.encode`, and `encodeUnslab` of lib/encode.js
abbrev pub encode : {A : Type 0} → Encoding A → A → Buffer
encode e a = e.encode a []

-- An early return, where a value is missing.
abbrev pub given : {A B : Type 0} → Option A → B → (A → B) → B
given none missing f = missing
given (some a) missing f = f a

same_entry :
    {V : Type 0} (x : Caches) (laws : CacheLaws x) (j k : Buffer) (v w : V) (s : x.Store V)
    → j ≡ k
    → x.get j (x.set k v s) ≡ some w
    → w ≡ v
same_entry x laws j k v w s same e =
    let found : x.get j (x.set k v s) ≡ some v =
      ap (λ i. x.get i (x.set k v s)) same ∙ laws.get-set k v s in
    ground (arith, found)

equals-false : (j k : Buffer) → equals j k ≡ false → j ≢ k
equals-false j k differ same =
    let e : equals j k ≡ true = ap (equals j) (sym same) ∙ equals_refl j in ground arith

-- What a cache holds after an entry was set: this entry, or one of before.
pub get-set_cases :
    {V : Type 0} (x : Caches) (laws : CacheLaws x) (j k : Buffer) (v w : V) (s : x.Store V)
    → x.get j (x.set k v s) ≡ some w
    → ((j ≡ k) × (w ≡ v)) ⊎ (x.get j s ≡ some w)
get-set_cases x laws j k v w s e = elim (Bool-cases (equals j k)) [
  | inl h ↦ let same : j ≡ k = equals-eq j k h in inl (same, same_entry x laws j k v w s same e)
  | inr h ↦ elim (laws.get-set_other j k v s (equals-false j k h)) [
    | inl gone ↦ absurd (ground (arith, gone))
    | inr same ↦ inr (sym same ∙ e)
  ]
]

pub given_lem :
    {A B : Type 0} (P : B → Type 0) (o : Option A) (missing : B) (f : A → B)
    → (o ≡ none → P missing)
    → ((a : A) → o ≡ some a → P (f a))
    → P (given o missing f)
given_lem P none missing f g h = g refl
given_lem P (some a) missing f g h = h a refl

pub if_lem :
    {B : Type 0} (P : B → Type 0) (b : Bool) (x y : B)
    → (b ≡ true → P x)
    → (b ≡ false → P y)
    → P (if b then x else y)
if_lem P true x y g h = g refl
if_lem P false x y g h = h refl
