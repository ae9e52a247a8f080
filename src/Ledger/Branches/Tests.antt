-- ===== src/Ledger/Branches/Tests.antt =====
-- A pool of one branch: a take, a charge, a close while the branch waits for its join, and the join.
use hyperdht.Prelude.{ℕ, ◌*◌, ◌≡◌, refl, true, none, List, [], ◌∷◌, ◌+◌, arith}
use hyperdht.Prelude.Int.{pos}
use hyperdht.Errors.{Error, ok, err, quota_exceeded}
use hyperdht.Values.{integer, bigint}
use hyperdht.Ledger.{Exact, exact}
use hyperdht.Ledger.Budget.{Row}
use hyperdht.Ledger.Accounts.{Request, no_row, fresh, charge_peer_ledger, charge_up}
use hyperdht.Ledger.Branches.{
  Slots, BranchRows, branch, new_pool, retire, revoke_all, set_pool, create_peer_branch_slots,
  take_peer_branch_authority, defer_peer_branch_authority_join, release_peer_branch_authority,
  close_peer_branch_slots, read_peer_branch_slots,
}
use hyperdht.Ledger.Branches.Sound.{IsSound}
use hyperdht.Ledger.Branches.Run.{
  Call, create, take, defer, release, close, charge_ledger, run, run-IsSound,
}
use hyperdht.Ledger.Branches.Retired.{
  join_later, join, shut, as_calls, read_totals, read_totals-retirements,
}
use hyperdht.Ledger.Branches.Revoked.{Refuses, release_peer_branch_authority-Refuses}
use hyperdht.Ledger.Branches.Closed.{take_peer_branch_authority-close_peer_branch_slots}

abbrev request : ℕ → Exact Request
request n = exact (record {
  cells = integer (pos n);
  bytes = bigint (pos (1200 * n));
  commands = integer (pos 1);
})

abbrev rows : Exact BranchRows
rows = exact (λ kind. request (50 + kind))

abbrev empty : Slots
empty = record {
  ledgers = record { next = 0; at = λ h. fresh none no_row };
  next_pool = 0;
  pools = λ p. new_pool 0;
  next_authority = 0;
  authorities = λ a. branch 0 [];
}

empty-IsSound : IsSound empty
empty-IsSound = record {
  pool_sound = λ q below. absurd (omega (arith, below));
  drained = λ q below. absurd (omega (arith, below));
  placed = λ a below. absurd (omega (arith, below));
}

abbrev setup : List Call
setup = create (integer (pos 1)) ∷ take 0 rows ∷ take 0 rows ∷ charge_ledger 0 (request 5) ∷ []

abbrev working : Slots
working = run setup empty

run-IsSound_example : IsSound (
    run
      (create (integer (pos 1))
        ∷ take 0 rows
        ∷ take 0 rows
        ∷ charge_ledger 0 (request 5)
        ∷ defer 0
        ∷ close 0
        ∷ release 0
        ∷ [])
      empty)
run-IsSound_example =
    run-IsSound
      (create (integer (pos 1))
        ∷ take 0 rows
        ∷ take 0 rows
        ∷ charge_ledger 0 (request 5)
        ∷ defer 0
        ∷ close 0
        ∷ release 0
        ∷ [])
      empty empty-IsSound

working-IsSound : IsSound working
working-IsSound = run-IsSound setup empty empty-IsSound

-- The branch has spent five cells of its send ledger.
abbrev spent : List Row
spent = record { cells = 5; bytes = 6000; commands = 1 } ∷ no_row ∷ no_row ∷ no_row ∷ []

working_totals : read_totals 0 working ≡ ok (spent, 1)
unfolding read_peer_branch_slots run create_peer_branch_slots take_peer_branch_authority
    charge_peer_ledger charge_up
working_totals = refl

read_totals-retirements_example :
    read_totals 0 (run (as_calls (join_later 0 ∷ shut 0 ∷ join 0 ∷ [])) working)
    ≡ read_totals 0 working
read_totals-retirements_example =
    read_totals-retirements (join_later 0 ∷ shut 0 ∷ join 0 ∷ []) 0 working working-IsSound

full : take_peer_branch_authority 0 rows working ≡ err quota_exceeded
unfolding run create_peer_branch_slots take_peer_branch_authority charge_peer_ledger charge_up
full = refl

release_peer_branch_authority-Refuses_example : Refuses 2 (request 1) (retire 0 working).ledgers
unfolding release_peer_branch_authority run create_peer_branch_slots take_peer_branch_authority
    charge_peer_ledger charge_up
release_peer_branch_authority-Refuses_example =
    release_peer_branch_authority-Refuses 0 2 (request 1) working (retire 0 working) refl refl

-- The branch that waits for its join keeps its slot when the pool closes.
abbrev waiting : Slots
waiting = run (defer 0 ∷ []) working

abbrev closed : Slots
closed = revoke_all (0 ∷ []) (set_pool waiting 0 (record (waiting.pools 0) { closed = true }))

waiting_closes : close_peer_branch_slots 0 waiting ≡ ok (true, closed)
unfolding close_peer_branch_slots run create_peer_branch_slots take_peer_branch_authority
    charge_peer_ledger charge_up defer_peer_branch_authority_join
waiting_closes = refl

keeps_slot : (closed.pools 0).live ≡ 0 ∷ []
unfolding revoke_all run create_peer_branch_slots take_peer_branch_authority charge_peer_ledger
    charge_up defer_peer_branch_authority_join
keeps_slot = refl

take_peer_branch_authority-close_peer_branch_slots_example :
    (e : Error) × (take_peer_branch_authority 0 rows
        (run (release 0 ∷ create (integer (pos 3)) ∷ []) closed)
      ≡ err e)
take_peer_branch_authority-close_peer_branch_slots_example =
    take_peer_branch_authority-close_peer_branch_slots 0 (release 0 ∷ create (integer (pos 3)) ∷ [])
      rows waiting closed true waiting_closes
