-- ===== src/Ledger/Accounts/Read.antt =====
-- About `readPeerLedger` of lib/private/peer-ledger.js.
use hyperdht.Prelude.{ℕ, ◌+◌, ◌≤◌, ◌≡◌, ltb, arith, Bool-cases, inl, inr}
use hyperdht.Errors.{ok, ensured}
use hyperdht.Ledger.Accounts.{Ledger, Store, Reading, read_peer_ledger, minus, remaining}
use hyperdht.Ledger.Accounts.Sums.{Column, amount, amount-minus}
use hyperdht.Ledger.Accounts.Balance.{IsSound}

abbrev AddsUp : Column → Reading → Type 0
AddsUp c x = amount c x.spent + amount c x.reserved + amount c x.remaining ≡ amount c x.allocated

reading-AddsUp :
    (l : Ledger) (c : Column)
    → amount c l.spent + amount c l.reserved ≤ amount c l.allocated
    → amount c l.spent + amount c l.reserved + amount c (remaining l) ≡ amount c l.allocated
reading-AddsUp l c le = omega (
  arith,
  amount-minus c (minus l.allocated l.spent) l.reserved,
  amount-minus c l.allocated l.spent,
)

-- For every sound store: in each of cells, bytes and commands, the amounts that `readPeerLedger`
-- reports as spent, reserved and remaining add up to the allocated one, so that none is negative.
pub read_peer_ledger-AddsUp :
    (h : ℕ) (s : Store) (r : Reading) (c : Column)
    → IsSound s
    → read_peer_ledger h s ≡ ok r
    → amount c r.spent + amount c r.reserved + amount c r.remaining ≡ amount c r.allocated
unfolding read_peer_ledger
read_peer_ledger-AddsUp h s r c sound =
    ensured (AddsUp c) (read_peer_ledger h s) r (elim (Bool-cases (ltb h s.next)) [
      | inl e ↦
          let held_up = reading-AddsUp (s.at h) c ((sound h (ground arith)).1 c).0 in ground arith
      | inr e ↦ ground arith
    ])
