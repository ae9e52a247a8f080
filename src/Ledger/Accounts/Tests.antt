-- ===== src/Ledger/Accounts/Tests.antt =====
-- A root ledger, a reservation from it and a charge to the reservation.
use hyperdht.Prelude.{true, ℕ, ◌*◌, ◌≡◌, refl, false, none, some, arith}
use hyperdht.Prelude.Int.{pos}
use hyperdht.Values.{integer, bigint}
use hyperdht.Ledger.{Exact, exact}
use hyperdht.Ledger.Budget.{Row}
use hyperdht.Ledger.Accounts.{
  Store, Request, Reading, fresh, add_ledger, write, reserve_from, charged, charge_up, no_row,
  create_peer_ledger, reserve_peer_ledger, charge_peer_ledger,
}
use hyperdht.Ledger.Accounts.{release_at}
use hyperdht.Ledger.Accounts.Balance.{IsSound}
use hyperdht.Ledger.Accounts.Reserve.{create_peer_ledger-IsSound, reserve_peer_ledger-IsSound}
use hyperdht.Ledger.Accounts.Charge.{charge_peer_ledger-IsSound}

abbrev request : ℕ → Exact Request
request n = exact (record {
  cells = integer (pos n);
  bytes = bigint (pos (1200 * n));
  commands = integer (pos 1);
})

abbrev amounts : ℕ → Row
amounts n = record { cells = n; bytes = 1200 * n; commands = 1 }

abbrev empty : Store
empty = record { next = 0; at = λ h. fresh none no_row }

empty-IsSound : IsSound empty
empty-IsSound h below = absurd (omega arith)

abbrev rooted : Store
rooted = add_ledger empty (fresh none (amounts 10))

rooted-IsSound : IsSound rooted
unfolding create_peer_ledger
rooted-IsSound = create_peer_ledger-IsSound (request 10) 0 empty rooted empty-IsSound refl

abbrev branched : Store
branched =
    add_ledger (write rooted 0 (reserve_from (rooted.at 0) (amounts 4) 1))
      (fresh (some 0) (amounts 4))

reserve_peer_ledger-IsSound_example : IsSound branched
unfolding reserve_peer_ledger
reserve_peer_ledger-IsSound_example =
    reserve_peer_ledger-IsSound 0 (request 4) 1 rooted branched rooted-IsSound refl

branched-IsSound : IsSound branched
unfolding reserve_peer_ledger
branched-IsSound = reserve_peer_ledger-IsSound 0 (request 4) 1 rooted branched rooted-IsSound refl

abbrev spent : Store
spent = charge_up 2 (some 0) (amounts 3) (write branched 1 (charged (branched.at 1) (amounts 3)))

charge_peer_ledger-IsSound_example : IsSound spent
unfolding charge_peer_ledger
charge_peer_ledger-IsSound_example =
    charge_peer_ledger-IsSound 1 (request 3) branched spent branched-IsSound refl

abbrev reading : Reading
reading = record {
  allocated = amounts 10;
  spent = no_row;
  reserved = amounts 4;
  remaining = record { cells = 6; bytes = 7200; commands = 0 };
  released = false;
}

abbrev closed : Store
closed = release_at 2 0 spent

-- The child is released with the root, and what it spent stays.
closed_child : ((closed.at 1).released ≡ true) × ((closed.at 0).spent.cells ≡ 3)
unfolding release_at charge_up
closed_child = (refl, refl)
