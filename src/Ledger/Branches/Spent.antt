-- ===== src/Ledger/Branches/Spent.antt =====
-- About what the branches of lib/private/peer-ledger.js have spent, before and after they retire.
use hyperdht.Prelude.{
  ℕ, zero, suc, ◌+◌, ◌≡◌, refl, true, Option, none, some, List, [], ◌∷◌, ap₂, length, ◌==◌, arith,
  Bool-cases, inl, inr, ap, sym, transport, ◌∙◌,
}
use hyperdht.Ledger.Budget.{Row}
use hyperdht.Ledger.Accounts.{
  Ledger, Store, write, plus, remove, for_each, give_back, give_back_to, release_at,
}
use hyperdht.Ledger.Accounts.Release.{
  marked, emptied, no_fuel, release_at-live, release_at-released,
}
use hyperdht.Ledger.Branches.Live.{has, remove_here, remove_later, length-remove_live}
use hyperdht.Ledger.Branches.{
  Pool, Authority, Slots, retire_roots, leave, retire, add_spent, sum_live,
}
use hyperdht.Ledger.Branches.Sound.{set_pool_lem}

-- Two stores in which every ledger has spent the same.
abbrev pub SameSpent : Store → Store → Type 0
SameSpent s t = (k : ℕ) → (t.at k).spent ≡ (s.at k).spent

trans : (s t u : Store) → SameSpent s t → SameSpent t u → SameSpent s u
trans s t u h g k = g k ∙ h k

write-SameSpent :
    (s : Store) (h : ℕ) (l : Ledger) → l.spent ≡ (s.at h).spent → SameSpent s (write s h l)
write-SameSpent s h l e k = elim (Bool-cases (k == h)) [
  | inl same ↦ ground (arith, same, e)
  | inr other ↦ ground (arith, other)
]

give_back-SameSpent : (o : Option ℕ) (h : ℕ) (s : Store) → SameSpent s (give_back o h s)
give_back-SameSpent none h s = λ k. refl
give_back-SameSpent (some p) h s = write-SameSpent s p (give_back_to (s.at h) h (s.at p)) refl

for_each-SameSpent :
    (f : ℕ → Store → Store) (hs : List ℕ) (s : Store)
    → ((h : ℕ) (t : Store) → SameSpent t (f h t))
    → SameSpent s (for_each f hs s)
for_each-SameSpent f [] s step = λ k. refl
for_each-SameSpent f (h ∷ hs) s step =
    trans s (f h s) (for_each f hs (f h s)) (step h s) (for_each-SameSpent f hs (f h s) step)

emptied-SameSpent :
    (fuel h : ℕ) (s : Store)
    → ((j : ℕ) (t : Store) → SameSpent t (release_at fuel j t))
    → SameSpent s (emptied fuel h s)
emptied-SameSpent fuel h s step =
    let first = marked h s in
    let below = for_each (release_at fuel) (s.at h).children first in
    trans s below (emptied fuel h s)
      (trans s first below (write-SameSpent s h (record (s.at h) { released = true }) refl)
        (for_each-SameSpent (release_at fuel) (s.at h).children first step))
      (write-SameSpent below h (record (below.at h) { children = [] }) refl)

-- A release changes what no ledger has spent.
release_at-SameSpent : (fuel h : ℕ) (s : Store) → SameSpent s (release_at fuel h s)
release_at-SameSpent zero h s = transport (ap (SameSpent s) (no_fuel h s)) (λ k. refl)
release_at-SameSpent (suc fuel) h s = elim (Bool-cases (s.at h).released) [
  | inl e ↦ transport (ap (SameSpent s) (sym (release_at-released (suc fuel) h s e))) (λ k. refl)
  | inr e ↦ transport (ap (SameSpent s) (release_at-live fuel h s e)) (
      trans s (emptied fuel h s) (give_back (s.at h).parent h (emptied fuel h s))
        (emptied-SameSpent fuel h s (λ j t. release_at-SameSpent fuel j t))
        (give_back-SameSpent (s.at h).parent h (emptied fuel h s)))
]

add_spent-same :
    (s t : Store) (roots : List ℕ) (totals : List Row)
    → SameSpent s t
    → add_spent t roots totals ≡ add_spent s roots totals
add_spent-same s t [] totals h = refl
add_spent-same s t (root ∷ roots) [] h = refl
add_spent-same s t (root ∷ roots) (total ∷ totals) h =
    ap (λ r. plus total r ∷ add_spent t roots totals) (h root)
    ∙ ap (λ r. plus total (s.at root).spent ∷ r) (add_spent-same s t roots totals h)

retire_roots-SameSpent :
    (roots : List ℕ) (totals : List Row) (s : Store) → SameSpent s (retire_roots roots totals s).1
unfolding retire_roots
retire_roots-SameSpent [] totals s = λ k. refl
retire_roots-SameSpent (root ∷ roots) [] s =
    let first = release_at s.next root s in
    trans s first (retire_roots roots [] first).1 (release_at-SameSpent s.next root s)
      (retire_roots-SameSpent roots [] first)
retire_roots-SameSpent (root ∷ roots) (total ∷ totals) s =
    let first = release_at s.next root s in
    trans s first (retire_roots roots totals first).1 (release_at-SameSpent s.next root s)
      (retire_roots-SameSpent roots totals first)

-- The totals grow by what the roots had spent before the release.
retire_roots-add_spent :
    (roots : List ℕ) (totals : List Row) (s : Store)
    → (retire_roots roots totals s).0 ≡ add_spent s roots totals
unfolding retire_roots
retire_roots-add_spent [] totals s = refl
retire_roots-add_spent (root ∷ roots) [] s = refl
retire_roots-add_spent (root ∷ roots) (total ∷ totals) s =
    let first = release_at s.next root s in
    ap (λ r. plus total (s.at root).spent ∷ r)
      (retire_roots-add_spent roots totals first
        ∙ add_spent-same s first roots totals (release_at-SameSpent s.next root s))

plus_swap : (a b c : Row) → plus (plus a b) c ≡ plus (plus a c) b
plus_swap a b c = ground arith

add_spent_swap :
    (s : Store) (a b : List ℕ) (totals : List Row)
    → add_spent s a (add_spent s b totals) ≡ add_spent s b (add_spent s a totals)
add_spent_swap s [] b totals = refl
add_spent_swap s (a ∷ rest) [] totals = refl
add_spent_swap s (a ∷ rest) (b ∷ bs) [] = refl
add_spent_swap s (a ∷ rest) (b ∷ bs) (total ∷ totals) =
    ap₂ (λ x y. x ∷ y) (plus_swap total (s.at b).spent (s.at a).spent)
      (add_spent_swap s rest bs totals)

-- Adding a live branch first, and the others after it, is adding them in their order.
sum_live-remove :
    (s : Store) (authorities : ℕ → Authority) (a : ℕ) (live : List ℕ) (totals : List Row)
    → has a live ≡ true
    → sum_live (add_spent s) authorities (remove a live) (add_spent s (authorities a).roots totals)
      ≡ sum_live (add_spent s) authorities live totals
sum_live-remove s authorities a [] totals e = absurd (ground (arith, e))
sum_live-remove s authorities a (k ∷ rest) totals e = elim (Bool-cases (k == a)) [
  | inl here ↦
      let same : k ≡ a = ground (arith, here) in
      ap (λ l. sum_live (add_spent s) authorities l (add_spent s (authorities a).roots totals))
        (remove_here a k rest here)
      ∙ ap (λ b. sum_live (add_spent s) authorities rest (add_spent s (authorities b).roots totals))
          (sym same)
  | inr other ↦
      let further : has a rest ≡ true = ground (arith, e, other) in
      let own = (authorities a).roots in
      let first = (authorities k).roots in
      ap (λ l. sum_live (add_spent s) authorities l (add_spent s own totals))
        (remove_later a k rest other)
      ∙ ap (sum_live (add_spent s) authorities (remove a rest)) (add_spent_swap s first own totals)
      ∙ sum_live-remove s authorities a rest (add_spent s first totals) further
]

-- The sum over branches with the same roots and spending.
pub sum_live-same :
    (s t : Store) (before after : ℕ → Authority) (live : List ℕ) (totals : List Row)
    → SameSpent s t
    → ((a : ℕ) → (after a).roots ≡ (before a).roots)
    → sum_live (add_spent t) after live totals ≡ sum_live (add_spent s) before live totals
sum_live-same s t before after [] totals h g = refl
sum_live-same s t before after (a ∷ rest) totals h g =
    ap (λ x. sum_live (add_spent t) after rest x)
      (ap (λ x. add_spent t x totals) (g a) ∙ add_spent-same s t (before a).roots totals h)
    ∙ sum_live-same s t before after rest (add_spent s (before a).roots totals) h g

-- What `readPeerBranchSlots` shows for a pool: what its branches have spent, and how many there were.
abbrev pub spent_of : Slots → Pool → List Row
spent_of s pool = sum_live (add_spent s.ledgers) s.authorities pool.live pool.retired_spent

abbrev pub branches_of : Pool → ℕ
branches_of pool = length pool.live + pool.retired

-- A pool whose branches have spent the same, and are as many.
abbrev pub SameTotals : Slots → Slots → Type 0
SameTotals s t =
    (q : ℕ)
    → (spent_of t (t.pools q) ≡ spent_of s (s.pools q))
      × (branches_of (t.pools q) ≡ branches_of (s.pools q))

module _ (a : ℕ) (s : Slots) where
  abbrev home : ℕ
  home = (s.authorities a).pool

  abbrev gone : List Row × Store
  gone = retire_roots (s.authorities a).roots (s.pools home).retired_spent s.ledgers

  same_roots : (k : ℕ) → ((retire a s).authorities k).roots ≡ (s.authorities k).roots
  same_roots k = elim (Bool-cases (k == a)) [
    | inl e ↦ let same : k ≡ a = ground (arith, e) in ground (arith, e, same)
    | inr e ↦ ground (arith, e)
  ]

  kept_sum :
      (live : List ℕ) (totals : List Row)
      → sum_live (add_spent gone.1) (retire a s).authorities live totals
        ≡ sum_live (add_spent s.ledgers) s.authorities live totals
  kept_sum live totals =
      sum_live-same s.ledgers gone.1 s.authorities (retire a s).authorities live totals
        (retire_roots-SameSpent (s.authorities a).roots (s.pools home).retired_spent s.ledgers)
        same_roots

  -- The spending of a live branch moves to the totals of the pool.
  pub retire-SameTotals : has a (s.pools home).live ≡ true → SameTotals s (retire a s)
  retire-SameTotals live q =
      set_pool_lem
        (λ k pool.
          (spent_of (retire a s) pool ≡ spent_of s (s.pools k))
          × (branches_of pool ≡ branches_of (s.pools k)))
        s home q (leave (s.pools home) a gone.0)
        (
          kept_sum (remove a (s.pools home).live) gone.0
              ∙ ap (sum_live (add_spent s.ledgers) s.authorities (remove a (s.pools home).live)) (
                  retire_roots-add_spent (s.authorities a).roots (s.pools home).retired_spent
                    s.ledgers)
              ∙ sum_live-remove s.ledgers s.authorities a (s.pools home).live
                  (s.pools home).retired_spent live,
          omega (arith, length-remove_live a (s.pools home).live live),
        )
        (λ d. (kept_sum (s.pools q).live (s.pools q).retired_spent, refl))
