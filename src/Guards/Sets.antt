-- ===== src/Guards/Sets.antt =====
-- About the class `PinnedGuards` of lib/private/private-peer-controller.js: lists of guards.
use hyperdht.Prelude.{
  ℕ, suc, ◌≤◌, ◌≡◌, refl, sym, ap, ◌∙◌, Bool, true, false, ◌||◌, some, List, [], ◌∷◌, ◌++◌, length,
  ◌==◌, arith, Bool-cases, inl, inr,
}
use hyperdht.Dht.{Buffer, equals, equals-eq, equals_refl}
use hyperdht.Guards.{Guard, is_guard, find, except, guard_set_size}

abbrev pub has_id : ℕ → List Guard → Bool
has_id id [] = false
has_id id (g ∷ rest) = g.id == id || has_id id rest

-- No object and no key stands twice.
abbrev pub Apart : List Guard → Type 0
Apart [] = Unit
Apart (g ∷ rest) = (has_id g.id rest ≡ false) × (is_guard g.public_key rest ≡ false) × Apart rest

abbrev pub IsGuardSet : List Guard → Type 0
IsGuardSet l = (length l ≤ guard_set_size) × Apart l

except-none : (id : ℕ) (l : List Guard) → has_id id l ≡ false → except id l ≡ l
except-none id [] h = refl
except-none id (g ∷ rest) h = ground (arith, h, except-none id rest)

pub is_guard-append :
    (k : Buffer) (l m : List Guard) → is_guard k (l ++ m) ≡ (is_guard k l || is_guard k m)
is_guard-append k [] m = refl
is_guard-append k (g ∷ rest) m = ground (arith, is_guard-append k rest m)

pub has_id-append : (id : ℕ) (l m : List Guard) → has_id id (l ++ m) ≡ (has_id id l || has_id id m)
has_id-append id [] m = refl
has_id-append id (g ∷ rest) m = ground (arith, has_id-append id rest m)

only_one :
    (id : ℕ) (h : Guard) (rest : List Guard)
    → Apart (h ∷ rest)
    → (h.id == id) ≡ true
    → except id rest ≡ rest
only_one id h rest a same =
    let here : h.id ≡ id = ground (arith, same) in
    except-none id rest (ap (λ i. has_id i rest) (sym here) ∙ a.0)

-- What the guards are without one of them.
pub is_guard-except :
    (k : Buffer) (id : ℕ) (l : List Guard) (g : Guard)
    → Apart l
    → find id l ≡ some g
    → (equals g.public_key k || is_guard k (except id l)) ≡ is_guard k l
is_guard-except k id [] g a e = ground (arith, e)
is_guard-except k id (h ∷ rest) g a e = elim (Bool-cases (h.id == id)) [
  | inl same ↦
      let here : h ≡ g = ground (arith, e, same) in
      ground (arith, same, ap (λ x. x.public_key) here, only_one id h rest a same)
  | inr other ↦
      let later = is_guard-except k id rest g a.2 (ground (arith, e, other)) in
      ground (arith, other, later)
]

has_id-except : (j id : ℕ) (l : List Guard) → has_id j l ≡ false → has_id j (except id l) ≡ false
has_id-except j id [] e = refl
has_id-except j id (h ∷ rest) e = ground (arith, e, has_id-except j id rest)

is_guard-except_le :
    (k : Buffer) (id : ℕ) (l : List Guard) → is_guard k l ≡ false → is_guard k (except id l) ≡ false
is_guard-except_le k id [] e = refl
is_guard-except_le k id (h ∷ rest) e = ground (arith, e, is_guard-except_le k id rest)

pub Apart-except : (id : ℕ) (l : List Guard) → Apart l → Apart (except id l)
Apart-except id [] a = tt
Apart-except id (h ∷ rest) a = ground (
  arith,
  a.0,
  a.1,
  Apart-except id rest a.2,
  has_id-except h.id id rest a.0,
  is_guard-except_le h.public_key id rest a.1,
)

pub length-except :
    (id : ℕ) (l : List Guard) (g : Guard)
    → Apart l
    → find id l ≡ some g
    → suc (length (except id l)) ≡ length l
length-except id [] g a e = ground (arith, e)
length-except id (h ∷ rest) g a e = elim (Bool-cases (h.id == id)) [
  | inl same ↦ ground (arith, same, only_one id h rest a same)
  | inr other ↦
      let later = length-except id rest g a.2 (ground (arith, e, other)) in
      ground (arith, other, later)
]

pub has_id-except_self : (id : ℕ) (l : List Guard) → has_id id (except id l) ≡ false
has_id-except_self id [] = refl
has_id-except_self id (h ∷ rest) = ground (arith, has_id-except_self id rest)

pub find_id : (id : ℕ) (l : List Guard) (g : Guard) → find id l ≡ some g → g.id ≡ id
find_id id [] g e = ground (arith, e)
find_id id (h ∷ rest) g e = elim (Bool-cases (h.id == id)) [
  | inl same ↦
      let here : h ≡ g = ground (arith, e, same) in ground (arith, same, ap (λ x. x.id) here)
  | inr other ↦ find_id id rest g (ground (arith, e, other))
]

found : (id : ℕ) (l : List Guard) (g : Guard) → find id l ≡ some g → is_guard g.public_key l ≡ true
found id [] g e = ground (arith, e)
found id (h ∷ rest) g e = elim (Bool-cases (h.id == id)) [
  | inl same ↦
      let here : h ≡ g = ground (arith, e, same) in
      let keys : equals h.public_key g.public_key ≡ true =
        ap (λ x. equals h.public_key x.public_key) (sym here) ∙ equals_refl h.public_key in
      ground (arith, keys)
  | inr other ↦ let later = found id rest g (ground (arith, e, other)) in ground (arith, later)
]

foreign :
    (id : ℕ) (k : Buffer) (l : List Guard) (g : Guard)
    → is_guard k l ≡ false
    → find id l ≡ some g
    → equals k g.public_key ≡ false
foreign id k l g h e = elim (Bool-cases (equals k g.public_key)) [
  | inl same ↦
      let keys = ap (λ x. is_guard x l) (equals-eq k g.public_key same) in
      absurd (ground (arith, h, keys, found id l g e))
  | inr differ ↦ differ
]

-- The key of a guard that is found is the key of no other guard.
pub own_key :
    (id : ℕ) (l : List Guard) (g : Guard)
    → Apart l
    → find id l ≡ some g
    → is_guard g.public_key (except id l) ≡ false
own_key id [] g a e = ground (arith, e)
own_key id (h ∷ rest) g a e = elim (Bool-cases (h.id == id)) [
  | inl same ↦
      let here : h ≡ g = ground (arith, e, same) in
      ap (λ x. is_guard x.public_key (except id (h ∷ rest))) (sym here)
      ∙ ground (arith, same, a.1, only_one id h rest a same)
  | inr other ↦
      let there : find id rest ≡ some g = ground (arith, e, other) in
      let later = own_key id rest g a.2 there in
      ground (arith, other, later, foreign id h.public_key rest g a.1 there)
]
