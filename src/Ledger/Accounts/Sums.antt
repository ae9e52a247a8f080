-- ===== src/Ledger/Accounts/Sums.antt =====
-- About the ledgers of lib/private/peer-ledger.js: the columns of a row, and sums over a store.
use hyperdht.Prelude.{
  ℕ, zero, suc, ◌+◌, ◌-◌, ◌≤◌, ◌<◌, ◌≡◌, refl, Bool, true, false, not, ◌&&◌, Option, none, some,
  ◌==◌, if◌then◌else◌, arith,
}
use hyperdht.Ledger.Budget.{Row}
use hyperdht.Ledger.Accounts.{Ledger, Store, plus, minus, fits}

pub data Column : Type 0 where
  cells bytes commands : Column

abbrev pub amount : Column → Row → ℕ
amount cells r = r.cells
amount bytes r = r.bytes
amount commands r = r.commands

pub amount-plus : (c : Column) (a b : Row) → amount c (plus a b) ≡ amount c a + amount c b
amount-plus cells a b = refl
amount-plus bytes a b = refl
amount-plus commands a b = refl

pub amount-minus : (c : Column) (a b : Row) → amount c (minus a b) ≡ amount c a - amount c b
amount-minus cells a b = refl
amount-minus bytes a b = refl
amount-minus commands a b = refl

pub amount-fits : (c : Column) (a b : Row) → fits a b ≡ true → amount c a ≤ amount c b
amount-fits cells a b h = ground arith
amount-fits bytes a b h = ground arith
amount-fits commands a b h = ground arith

unfoldable pub sum_below : ℕ → (ℕ → ℕ) → ℕ
sum_below zero f = 0
sum_below (suc n) f = f n + sum_below n f

pub sum_below-same :
    (n : ℕ) (f g : ℕ → ℕ) → ((k : ℕ) → k < n → g k ≡ f k) → sum_below n g ≡ sum_below n f
unfolding sum_below
sum_below-same zero f g e = refl
sum_below-same (suc n) f g e =
    omega (arith, e n (omega arith), sum_below-same n f g λ k h. e k (omega arith))

pub sum_below-zero : (n : ℕ) (f : ℕ → ℕ) → ((k : ℕ) → k < n → f k ≡ 0) → sum_below n f ≡ 0
unfolding sum_below
sum_below-zero zero f e = refl
sum_below-zero (suc n) f e =
    omega (arith, e n (omega arith), sum_below-zero n f λ k h. e k (omega arith))

-- The summand at p is lowered by d, the others stay.
pub sum_below-lower :
    (n : ℕ) (f g : ℕ → ℕ) (p d : ℕ)
    → ((k : ℕ) → g k + (if p == k then d else 0) ≡ f k)
    → p < n
    → sum_below n g + d ≡ sum_below n f
unfolding sum_below
sum_below-lower zero f g p d e h = absurd (omega arith)
sum_below-lower (suc n) f g p d e h =
    let same = sum_below-same n f g in ground (arith, e n, sum_below-lower n f g p d e, same)

-- A ledger is the one that is named.
abbrev pub is : Option ℕ → ℕ → Bool
is none h = false
is (some p) h = p == h

-- A live child of h holds what it has not spent of the reserved amounts of h.
abbrev pub owed : Ledger → ℕ → Bool
owed l h = not l.released && is l.parent h

abbrev pub held : Column → Ledger → ℕ → ℕ
held c l h = if owed l h then amount c l.allocated - amount c l.spent else 0

abbrev pub holdings : Column → Store → ℕ → ℕ
holdings c s h = sum_below s.next (λ k. held c (s.at k) h)
