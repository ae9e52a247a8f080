-- ===== src/Ledger/Accounts/Balance.antt =====
-- About the ledgers of lib/private/peer-ledger.js: their balance, and spending on the way up.
use hyperdht.Prelude.{
  ℕ, ◌+◌, ◌≤◌, ◌<◌, ◌≡◌, refl, Bool, true, false, not, ◌&&◌, Option, none, some, ltb, ◌==◌,
  if◌then◌else◌, arith, Bool-cases, inl, inr, ap, transport, Option-cases,
}
use hyperdht.Errors.{Result, ok, err, invalid_route, ◌>>=◌, ◌>>◌, Ensures}
use hyperdht.Ledger.Budget.{Row, require}
use hyperdht.Ledger.Accounts.{Ledger, Store, plus, get_live, write, no_row}
use hyperdht.Ledger.Accounts.Sums.{
  Column, amount, amount-plus, sum_below-lower, is, owed, held, holdings,
}

-- An amount that the ledger `o` has to pass on upwards.
abbrev pub due : Option ℕ → Row → Column → ℕ → ℕ
due o row c h = if is o h then amount c row else 0

-- A parent has a smaller number, and is live while its child is.
abbrev pub HasParent : Store → ℕ → Type 0
HasParent s h =
    (p : ℕ)
    → (s.at h).parent ≡ some p
    → (p < h) × ((s.at h).released ≡ false → (s.at p).released ≡ false)

abbrev pub Adds : Column → ℕ → Ledger → Type 0
Adds c total l =
    (amount c l.spent + amount c l.reserved ≤ amount c l.allocated) × (amount c l.reserved ≡ total)

abbrev pub IsBalanced : Option ℕ → Row → Store → ℕ → Column → Type 0
IsBalanced o row s h c = Adds c (holdings c s h + due o row c h) (s.at h)

abbrev pub IsSoundBut : Option ℕ → Row → Store → Type 0
IsSoundBut o row s = (h : ℕ) → h < s.next → HasParent s h × ((c : Column) → IsBalanced o row s h c)

-- Every ledger has its parent below it in number and live while it is itself live; in each of cells,
-- bytes and commands, spent and reserved together are at most allocated, and reserved is exactly the
-- sum over the ledger's live children of what they have not spent.
abbrev pub IsSound : Store → Type 0
IsSound = IsSoundBut none no_row

-- A ledger that has spent more, with some other reservation.
abbrev pub spending : Ledger → Row → Row → ℕ → Ledger
spending l row reserved direct = record l {
  spent = plus l.spent row;
  reserved = reserved;
  direct_cells_spent = direct;
}

module _ (s : Store) (p : ℕ) (row reserved : Row) (direct : ℕ) where
  abbrev after : Store
  after = write s p (spending (s.at p) row reserved direct)

  held-after :
      (c : Column) (h k : ℕ)
      → amount c (s.at p).spent + amount c row ≤ amount c (s.at p).allocated
      → held c (after.at k) h
          + (if p == k then (if owed (s.at p) h then amount c row else 0) else 0)
        ≡ held c (s.at k) h
  held-after c h k le = ground (arith, amount-plus c (s.at p).spent row)

  holdings-after :
      (c : Column) (h : ℕ)
      → p < s.next
      → amount c (s.at p).spent + amount c row ≤ amount c (s.at p).allocated
      → holdings c after h + (if owed (s.at p) h then amount c row else 0) ≡ holdings c s h
  holdings-after c h below le =
      sum_below-lower s.next (λ k. held c (s.at k) h) (λ k. held c (after.at k) h) p
        (if owed (s.at p) h then amount c row else 0) (λ k. held-after c h k le) below

  after-parent : (h : ℕ) → (after.at h).parent ≡ (s.at h).parent
  after-parent h = ground arith

  pub after-released : (h : ℕ) → (after.at h).released ≡ (s.at h).released
  after-released h = ground arith

  after-HasParent : (h : ℕ) → HasParent s h → HasParent after h
  after-HasParent h up q e =
      let (below, live) = up q (ground (arith, after-parent h)) in
      (below, λ r. ground (arith, after-released h, after-released q, live))

  after-at_self : (h : ℕ) → (p == h) ≡ true → spending (s.at p) row reserved direct ≡ after.at h
  after-at_self h e = ground arith

  after-at_other : (h : ℕ) → (p == h) ≡ false → s.at h ≡ after.at h
  after-at_other h e = ground arith

  not_own : (h : ℕ) → (p == h) ≡ true → HasParent s p → is (s.at p).parent h ≡ false
  not_own h e up = elim (Option-cases (s.at p).parent) [
    | inl none_ ↦ ground arith
    | inr (q, some_q) ↦ let below = (up q some_q).0 in ground arith
  ]

  IsBalanced-self :
      (c : Column) (h : ℕ)
      → (p == h) ≡ true
      → HasParent s p
      → p < s.next
      → amount c (s.at p).spent + amount c row + amount c reserved ≤ amount c (s.at p).allocated
      → amount c reserved ≡ holdings c s h
      → IsBalanced (s.at p).parent row after h c
  IsBalanced-self c h e up below le eq =
      let lowered = holdings-after c h below (omega (arith, le)) in
      transport (ap (Adds c (holdings c after h + due (s.at p).parent row c h)) (after-at_self h e))
        (omega (arith, le, amount-plus c (s.at p).spent row), ground (arith, not_own h e up))

  IsBalanced-other :
      (o : Option ℕ) (c : Column) (h : ℕ)
      → (p == h) ≡ false
      → p < s.next
      → (s.at p).released ≡ false
      → is o h ≡ false
      → amount c (s.at p).spent + amount c row ≤ amount c (s.at p).allocated
      → IsBalanced o row s h c
      → IsBalanced (s.at p).parent row after h c
  IsBalanced-other o c h e below live elsewhere le (fit, balance) =
      let lowered = holdings-after c h below le in
      transport
        (ap (Adds c (holdings c after h + due (s.at p).parent row c h)) (after-at_other h e))
        (fit, ground arith)

  -- The ledger p spends the row; the amount that is due moves from p, or from nowhere, to its parent.
  pub spending-IsSoundBut :
      (o : Option ℕ)
      → IsSoundBut o row s
      → p < s.next
      → (s.at p).released ≡ false
      → ((h : ℕ) → (p == h) ≡ false → is o h ≡ false)
      → ((c : Column)
          → amount c (s.at p).spent + amount c row + amount c reserved
            ≤ amount c (s.at p).allocated)
      → ((c : Column) → amount c reserved ≡ holdings c s p)
      → IsSoundBut (s.at p).parent row after
  spending-IsSoundBut o sound below live elsewhere le eq h h_below = (
    after-HasParent h (sound h h_below).0,
    λ c. elim (Bool-cases (p == h)) [
      | inl e ↦ IsBalanced-self c h e (sound p below).0 below (le c) (ground (arith, eq c))
      | inr e ↦
          IsBalanced-other o c h e below live (elsewhere h e) (omega (arith, le c))
            ((sound h h_below).1 c)
    ],
  )

get_live_found :
    (s : Store) (h : ℕ)
    → (ltb h s.next && not (s.at h).released) ≡ true
    → ok (s.at h) ≡ get_live s h
get_live_found s h e = ground arith

get_live_refused :
    (s : Store) (h : ℕ)
    → (ltb h s.next && not (s.at h).released) ≡ false
    → err invalid_route ≡ get_live s h
get_live_refused s h e = ground arith

pub live-Ensures :
    {B : Type 0} (P : B → Type 0) (s : Store) (h : ℕ) (f : Ledger → Result B)
    → (h < s.next → (s.at h).released ≡ false → Ensures P (f (s.at h)))
    → Ensures P (get_live s h >>= f)
live-Ensures P s h f k = elim (Bool-cases (ltb h s.next && not (s.at h).released)) [
  | inl e ↦
      transport (ap (λ x. Ensures P (x >>= f)) (get_live_found s h e))
        (k (ground arith) (ground arith))
  | inr e ↦ transport (ap (λ x. Ensures P (x >>= f)) (get_live_refused s h e)) tt
]

pub require-Ensures :
    {B : Type 0} (P : B → Type 0) (b : Bool) (rest : Result B)
    → (b ≡ true → Ensures P rest)
    → Ensures P (require b >> rest)
require-Ensures P true rest k = k refl
require-Ensures P false rest k = tt
