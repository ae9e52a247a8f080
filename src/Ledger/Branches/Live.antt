-- ===== src/Ledger/Branches/Live.antt =====
-- About `live` of the branch slots of lib/private/peer-ledger.js: a list in the order of creation.
use hyperdht.Prelude.{
  ℕ, suc, ◌≤◌, ◌<◌, ◌≡◌, refl, Bool, true, false, ◌||◌, List, [], ◌∷◌, ◌++◌, length, ◌==◌, arith,
  Bool-cases, inl, inr, ap, sym, transport,
}
use hyperdht.Ledger.Accounts.{remove}

abbrev pub has : ℕ → List ℕ → Bool
has a [] = false
has a (k ∷ rest) = k == a || has a rest

-- From `low` on, below `high`, each number above the one before.
abbrev pub IsAscending : ℕ → ℕ → List ℕ → Type 0
IsAscending low high [] = low ≤ high
IsAscending low high (a ∷ rest) = (low ≤ a) × IsAscending (suc a) high rest

pub IsAscending-append :
    (low high : ℕ) (live : List ℕ)
    → IsAscending low high live
    → IsAscending low (suc high) (live ++ (high ∷ []))
IsAscending-append low high [] h = (h, omega arith)
IsAscending-append low high (a ∷ rest) h = (h.0, IsAscending-append (suc a) high rest h.1)

pub IsAscending-low :
    (low lower high : ℕ) (live : List ℕ)
    → lower ≤ low
    → IsAscending low high live
    → IsAscending lower high live
IsAscending-low low lower high [] le h = omega (arith, le, h)
IsAscending-low low lower high (a ∷ rest) le h = (omega (arith, le, h.0), h.1)

pub remove_here : (a k : ℕ) (rest : List ℕ) → (k == a) ≡ true → remove a (k ∷ rest) ≡ rest
remove_here a k rest e = ground (arith, e)

pub remove_later :
    (a k : ℕ) (rest : List ℕ) → (k == a) ≡ false → remove a (k ∷ rest) ≡ k ∷ remove a rest
remove_later a k rest e = ground (arith, e)

pub IsAscending-remove :
    (a low high : ℕ) (live : List ℕ)
    → IsAscending low high live
    → IsAscending low high (remove a live)
IsAscending-remove a low high [] h = h
IsAscending-remove a low high (k ∷ rest) h = elim (Bool-cases (k == a)) [
  | inl e ↦
      transport (ap (IsAscending low high) (sym (remove_here a k rest e)))
        (IsAscending-low (suc k) low high rest (omega (arith, h.0)) h.1)
  | inr e ↦
      transport (ap (IsAscending low high) (sym (remove_later a k rest e)))
        (h.0, IsAscending-remove a (suc k) high rest h.1)
]

pub has_low :
    (a low high : ℕ) (live : List ℕ) → IsAscending low high live → has a live ≡ true → low ≤ a
has_low a low high [] h e = ground (arith, e)
has_low a low high (k ∷ rest) h e = elim (Bool-cases (k == a)) [
  | inl here ↦ ground (arith, h.0, here)
  | inr other ↦
      let further : has a rest ≡ true = ground (arith, e, other) in
      omega (arith, h.0, has_low a (suc k) high rest h.1 further)
]

IsAscending-bound : (low high : ℕ) (live : List ℕ) → IsAscending low high live → low ≤ high
IsAscending-bound low high [] h = h
IsAscending-bound low high (a ∷ rest) h =
    omega (arith, h.0, IsAscending-bound (suc a) high rest h.1)

pub has_high :
    (a low high : ℕ) (live : List ℕ) → IsAscending low high live → has a live ≡ true → a < high
has_high a low high [] h e = ground (arith, e)
has_high a low high (k ∷ rest) h e = elim (Bool-cases (has a rest)) [
  | inl further ↦ has_high a (suc k) high rest h.1 further
  | inr other ↦ ground (arith, e, other, IsAscending-bound (suc k) high rest h.1)
]

pub has-remove : (b a : ℕ) (live : List ℕ) → has b (remove a live) ≡ true → has b live ≡ true
has-remove b a [] e = e
has-remove b a (k ∷ rest) e = elim (Bool-cases (k == a)) [
  | inl here ↦ ground (arith, e, here)
  | inr other ↦ ground (arith, e, other, has-remove b a rest)
]

-- Another branch stays live.
pub has-remove_other :
    (b a : ℕ) (live : List ℕ) → (b == a) ≡ false → has b live ≡ true → has b (remove a live) ≡ true
has-remove_other b a [] d e = e
has-remove_other b a (k ∷ rest) d e = elim (Bool-cases (k == a)) [
  | inl here ↦ ground (arith, e, here, d)
  | inr other ↦ ground (arith, e, other, has-remove_other b a rest)
]

pub has-removed :
    (a low high : ℕ) (live : List ℕ) → IsAscending low high live → has a (remove a live) ≡ false
has-removed a low high [] h = refl
has-removed a low high (k ∷ rest) h = elim (Bool-cases (k == a)) [
  | inl here ↦ elim (Bool-cases (has a rest)) [
    | inl further ↦ absurd (ground (arith, here, has_low a (suc k) high rest h.1 further))
    | inr gone ↦ ground (arith, here, gone)
  ]
  | inr other ↦ ground (arith, other, has-removed a (suc k) high rest h.1)
]

pub has-append : (b a : ℕ) (live : List ℕ) → has b (live ++ (a ∷ [])) ≡ (has b live || a == b)
has-append b a [] = ground arith
has-append b a (k ∷ rest) = ground (arith, has-append b a rest)

pub length-remove : (a : ℕ) (live : List ℕ) → length (remove a live) ≤ length live
length-remove a [] = omega arith
length-remove a (k ∷ rest) = elim (Bool-cases (k == a)) [
  | inl here ↦ ground (arith, here)
  | inr other ↦ ground (arith, other, length-remove a rest)
]

pub IsAscending-high :
    (low high : ℕ) (live : List ℕ) → IsAscending low high live → IsAscending low (suc high) live
IsAscending-high low high [] h = omega (arith, h)
IsAscending-high low high (a ∷ rest) h = (h.0, IsAscending-high (suc a) high rest h.1)

-- A live branch that leaves makes room for one.
pub length-remove_live :
    (a : ℕ) (live : List ℕ) → has a live ≡ true → suc (length (remove a live)) ≡ length live
length-remove_live a [] e = absurd (ground (arith, e))
length-remove_live a (k ∷ rest) e = elim (Bool-cases (k == a)) [
  | inl here ↦ ground (arith, here)
  | inr other ↦ ground (arith, e, other, length-remove_live a rest)
]
