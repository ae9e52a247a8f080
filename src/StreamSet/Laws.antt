-- ===== src/StreamSet/Laws.antt =====
-- About the class `RawStreamSet` of lib/raw-stream-set.js: the table against the list of the ids of
-- its streams.
use Prim.Native.Nat.{bit_and}
use native.Mathlib.Nat.{pow-suc, one-le-pow}
use hyperdht.Prelude.{
  ℕ, suc, ◌+◌, ◌-◌, ◌*◌, ◌^◌, ◌≤◌, ◌≡◌, refl, sym, ap, transport, ◌∙◌, Bool, true, false, ◌||◌,
  some, List, [], ◌∷◌, ◌++◌, leb, ◌==◌, if◌then◌else◌, length, length-append, arith, Bool-cases,
  inl, inr,
}
use hyperdht.Prelude.Bits.{bit_and-mask_shorter}
use hyperdht.Prelude.Assoc.{has, delete, Distinct, Distinct-append_one, has-append}
use hyperdht.Dht.{if_lem}
use hyperdht.StreamSet.{StreamSet, size, set, draw, move, grow, put, values}

-- The ids of a list, each at its low bits.
abbrev pub table : ℕ → List ℕ → List (ℕ × ℕ)
table p [] = []
table p (id ∷ ids) = (bit_and id p, id) ∷ table p ids

abbrev pub IsMask : ℕ → Type 0
IsMask p = (k : ℕ) × (p ≡ 2 ^ suc k - 1)

-- A set of streams that stands for a list of ids.
abbrev pub Represents : List ℕ → StreamSet → Type 0
Represents ids s =
    IsMask s.prefix
    × (s.streams ≡ table s.prefix ids)
    × Distinct (table s.prefix ids)
    × (2 * length ids ≤ suc s.prefix)

abbrev pub member : ℕ → List ℕ → Bool
member id [] = false
member id (x ∷ rest) = id == x || member id rest

abbrev pub without : ℕ → List ℕ → List ℕ
without id [] = []
without id (x ∷ rest) = if x == id then rest else x ∷ without id rest

pub values-table : (p : ℕ) (ids : List ℕ) → values (table p ids) ≡ ids
values-table p [] = refl
values-table p (id ∷ ids) = ap (◌∷◌ id) (values-table p ids)

pub length-table : (p : ℕ) (ids : List ℕ) → length (table p ids) ≡ length ids
length-table p [] = refl
length-table p (id ∷ ids) = ap suc (length-table p ids)

table-append : (p : ℕ) (xs ys : List ℕ) → table p (xs ++ ys) ≡ table p xs ++ table p ys
table-append p [] ys = refl
table-append p (x ∷ xs) ys = ap (◌∷◌ (bit_and x p, x)) (table-append p xs ys)

set-new : (k v : ℕ) (m : List (ℕ × ℕ)) → has k m ≡ false → set k v m ≡ m ++ (k, v) ∷ []
set-new k v [] h = refl
set-new k v ((j, w) ∷ m) h = ground (arith, h, set-new k v m)

-- A place that is free under a prefix is free under a longer one.
has-longer :
    (id k : ℕ) (ids : List ℕ)
    → has (bit_and id (2 ^ k - 1)) (table (2 ^ k - 1) ids) ≡ false
    → has (bit_and id (2 ^ suc k - 1)) (table (2 ^ suc k - 1) ids) ≡ false
has-longer id k [] h = refl
has-longer id k (x ∷ ids) h = ground (arith, h, has-longer id k ids, bit_and-mask_shorter x id k)

Distinct-longer :
    (k : ℕ) (ids : List ℕ) → Distinct (table (2 ^ k - 1) ids) → Distinct (table (2 ^ suc k - 1) ids)
Distinct-longer k [] d = tt
Distinct-longer k (x ∷ ids) d = (has-longer x k ids d.0, Distinct-longer k ids d.1)

append_nil : (xs : List ℕ) → xs ++ [] ≡ xs
append_nil [] = refl
append_nil (x ∷ xs) = ap (◌∷◌ x) (append_nil xs)

append_one_assoc : (xs : List ℕ) (x : ℕ) (ys : List ℕ) → (xs ++ x ∷ []) ++ ys ≡ xs ++ x ∷ ys
append_one_assoc [] x ys = refl
append_one_assoc (y ∷ xs) x ys = ap (◌∷◌ y) (append_one_assoc xs x ys)

-- A place is free after the ids before it, where no place is taken twice.
Distinct-middle :
    (p : ℕ) (xs : List ℕ) (x : ℕ) (ys : List ℕ)
    → Distinct (table p (xs ++ x ∷ ys))
    → has (bit_and x p) (table p xs) ≡ false
Distinct-middle p [] x ys d = refl
Distinct-middle p (y ∷ xs) x ys d =
    let rest = Distinct-middle p xs x ys d.1 in
    let split = ap (has (bit_and y p)) (table-append p xs (x ∷ ys)) in
    ground (arith, rest, split, d.0, has-append (bit_and y p) (table p xs) (table p (x ∷ ys)))

move-table :
    (p q : ℕ) (xs ids : List ℕ)
    → Distinct (table q (xs ++ ids))
    → move q (table p ids) (table q xs) ≡ table q (xs ++ ids)
unfolding move
move-table p q xs [] d = ap (table q) (sym (append_nil xs))
move-table p q xs (x ∷ ids) d =
    let free = Distinct-middle q xs x ids d in
    let put_last : set (bit_and x q) x (table q xs) ≡ table q (xs ++ x ∷ []) =
      set-new (bit_and x q) x (table q xs) free ∙ sym (table-append q xs (x ∷ [])) in
    let same = append_one_assoc xs x ids in
    ap (move q (table p ids)) put_last
    ∙ move-table p q (xs ++ x ∷ []) ids (transport (ap (λ l. Distinct (table q l)) (sym same)) d)
    ∙ ap (table q) same

double : (k : ℕ) → 2 * (2 ^ k - 1) + 1 ≡ 2 ^ suc k - 1
double k = omega (arith, pow-suc 2 k, one-le-pow k 2)

-- What is free or apart under a mask is so under the next one.
free_longer :
    (id p k : ℕ) (ids : List ℕ)
    → p ≡ 2 ^ k - 1
    → has (bit_and id p) (table p ids) ≡ false
    → has (bit_and id (2 * p + 1)) (table (2 * p + 1) ids) ≡ false
free_longer id p k ids e h =
    let next : 2 * p + 1 ≡ 2 ^ suc k - 1 = ap (λ q. 2 * q + 1) e ∙ double k in
    ap (λ q. has (bit_and id q) (table q ids)) next
    ∙ has-longer id k ids (ap (λ q. has (bit_and id q) (table q ids)) (sym e) ∙ h)

apart_longer :
    (p k : ℕ) (ids : List ℕ)
    → p ≡ 2 ^ k - 1
    → Distinct (table p ids)
    → Distinct (table (2 * p + 1) ids)
apart_longer p k ids e d =
    let next : 2 * p + 1 ≡ 2 ^ suc k - 1 = ap (λ q. 2 * q + 1) e ∙ double k in
    transport (ap (λ q. Distinct (table q ids)) (sym next))
      (Distinct-longer k ids (transport (ap (λ q. Distinct (table q ids)) e) d))

-- Before a stream is put, the table has room for it.
abbrev HasRoom : List ℕ → ℕ → StreamSet → Type 0
HasRoom ids id s =
    IsMask s.prefix
    × (s.streams ≡ table s.prefix ids)
    × Distinct (table s.prefix ids)
    × (2 * suc (length ids) ≤ suc s.prefix)
    × (has (bit_and id s.prefix) (table s.prefix ids) ≡ false)

pub grow-HasRoom :
    (ids : List ℕ) (id : ℕ) (s : StreamSet)
    → Represents ids s
    → has (bit_and id s.prefix) (table s.prefix ids) ≡ false
    → HasRoom ids id (grow s)
unfolding grow
grow-HasRoom ids id s r free =
    let k = r.0.0 in
    let p = s.prefix in
    let sized : size s ≡ length ids = ap length r.1 ∙ length-table p ids in
    if_lem (HasRoom ids id) (leb p (2 * size s)) _ _
      (λ h. (
        (suc k, ap (λ q. 2 * q + 1) r.0.1 ∙ double (suc k)),
        ap (λ m. move (2 * p + 1) m []) r.1
            ∙ move-table p (2 * p + 1) [] ids (apart_longer p (suc k) ids r.0.1 r.2),
        apart_longer p (suc k) ids r.0.1 r.2,
        omega (arith, r.3, r.0.1, pow-suc 2 k, one-le-pow k 2),
        free_longer id p (suc k) ids r.0.1 free,
      ))
      (λ h. (r.0, r.1, r.2, ground (arith, h, sized), free))

pub put-Represents :
    (ids : List ℕ) (id : ℕ) (s : StreamSet)
    → HasRoom ids id s
    → Represents (ids ++ id ∷ []) (put id s)
put-Represents ids id s r =
    let p = s.prefix in
    let appended = table-append p ids (id ∷ []) in
    (
      r.0,
      ap (set (bit_and id p) id) r.1 ∙ set-new (bit_and id p) id (table p ids) r.4 ∙ sym appended,
      transport (ap Distinct (sym appended))
          (Distinct-append_one (table p ids) (bit_and id p) id r.2 r.4),
      omega (arith, length-append ids (id ∷ []), r.3),
    )

pub draw_free :
    (draws : List ℕ) (s : StreamSet) (id : ℕ)
    → draw draws s ≡ some id
    → has (bit_and id s.prefix) s.streams ≡ false
unfolding draw
draw_free [] s id e = ground (arith, e)
draw_free (x ∷ rest) s id e = elim (Bool-cases (has (bit_and x s.prefix) s.streams)) [
  | inl h ↦ draw_free rest s id (ground (arith, e, h))
  | inr h ↦
      let same : x ≡ id = ground (arith, e, h) in
      ap (λ y. has (bit_and y s.prefix) s.streams) (sym same) ∙ h
]

pub free_member :
    (p id : ℕ) (ids : List ℕ) → has (bit_and id p) (table p ids) ≡ false → member id ids ≡ false
free_member p id [] h = refl
free_member p id (x ∷ ids) h = elim (Bool-cases (id == x)) [
  | inl e ↦
      let same : id ≡ x = ground (arith, e) in
      absurd (ground (arith, h, ap (λ y. bit_and y p) same))
  | inr e ↦ ground (arith, e, h, free_member p id ids)
]

taken_member :
    (p id : ℕ) (ids : List ℕ) → member id ids ≡ true → has (bit_and id p) (table p ids) ≡ true
taken_member p id ids h = elim (Bool-cases (has (bit_and id p) (table p ids))) [
  | inl e ↦ e
  | inr e ↦ absurd (ground (arith, h, free_member p id ids e))
]

differ : (j k : ℕ) (m : List (ℕ × ℕ)) → has j m ≡ false → has k m ≡ true → (j == k) ≡ false
differ j k m a b = elim (Bool-cases (j == k)) [
  | inl e ↦
      let same : j ≡ k = ground (arith, e) in absurd (ground (arith, a, b, ap (λ i. has i m) same))
  | inr e ↦ e
]

pub delete-table :
    (p id : ℕ) (ids : List ℕ)
    → Distinct (table p ids)
    → member id ids ≡ true
    → delete (bit_and id p) (table p ids) ≡ table p (without id ids)
delete-table p id [] d h = ground (arith, h)
delete-table p id (x ∷ ids) d h = elim (Bool-cases (x == id)) [
  | inl e ↦ let same : x ≡ id = ground (arith, e) in ground (arith, e, ap (λ y. bit_and y p) same)
  | inr e ↦
      let later : member id ids ≡ true = ground (arith, e, h) in
      let there = taken_member p id ids later in
      let apart : (bit_and x p == bit_and id p) ≡ false =
        differ (bit_and x p) (bit_and id p) (table p ids) d.0 there in
      ground (arith, e, apart, delete-table p id ids d.1 later)
]

pub length-without :
    (id : ℕ) (ids : List ℕ) → member id ids ≡ true → suc (length (without id ids)) ≡ length ids
length-without id [] h = ground (arith, h)
length-without id (x ∷ ids) h = ground (arith, h, length-without id ids)
