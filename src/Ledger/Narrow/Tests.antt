-- ===== src/Ledger/Narrow/Tests.antt =====
-- A root ledger with a reservation below it, and a memory reservation, narrowed together.
use hyperdht.Prelude.{ℕ, ◌*◌, ◌≡◌, refl, none, some, [], ◌∷◌, List}
use hyperdht.Prelude.Int.{pos}
use hyperdht.Errors.{ok, err, invalid_route}
use hyperdht.Values.{integer, bigint}
use hyperdht.Ledger.{exact}
use hyperdht.Ledger.Budget.{Row}
use hyperdht.Ledger.Accounts.{Store, fresh, add_ledger, write, reserve_from, no_row}
use hyperdht.Ledger.Memory.{
  Memory, Kind, add_pool, fresh_pool, fresh_reservation, add_reservation, write_pool,
}
use hyperdht.Ledger.Memory
use hyperdht.Ledger.Narrow.{
  LedgerRow, MemoryRow, narrow_peer_reservations, narrow_ledgers, narrow_memory, check_ledgers,
  check_covered, check_memory,
}
use hyperdht.Ledger.Narrow.Lowered.{LowersLedgers, LowersMemory, narrow_peer_reservations-Lowers}
use hyperdht.Ledger.Narrow.Asked.{IsDone, narrow_peer_reservations-IsDone}

abbrev amounts : ℕ → Row
amounts n = record { cells = n; bytes = 1200 * n; commands = 1 }

abbrev rooted : Store
rooted = add_ledger (record { next = 0; at = λ h. fresh none no_row }) (fresh none (amounts 10))

abbrev store : Store
store =
    add_ledger (write rooted 0 (reserve_from (rooted.at 0) (amounts 4) 1))
      (fresh (some 0) (amounts 4))

abbrev pooled : Memory
pooled =
    add_pool
      (record {
        next_pool = 0;
        pool_at = λ p. fresh_pool 0 none;
        next_reservation = 0;
        reservation_at = λ r. fresh_reservation 0 Kind.unnamed 0;
      })
      (fresh_pool 100 none)

abbrev memory : Memory
memory =
    add_reservation (write_pool pooled 0 (Memory.reserve_from (pooled.pool_at 0) 60 0))
      (fresh_reservation 0 (Kind.named 1) 60)

abbrev row : ℕ → ℕ → LedgerRow
row h n = record {
  ledger = h;
  amounts = exact (record {
    cells = integer (pos n);
    bytes = bigint (pos (1200 * n));
    commands = integer (pos 1);
  });
}

abbrev ledger_rows : List LedgerRow
ledger_rows = row 0 2 ∷ row 1 2 ∷ []

abbrev memory_rows : List MemoryRow
memory_rows = record { reservation = 0; capacity_bytes = integer (pos 30) } ∷ []

abbrev narrowed_store : Store
narrowed_store =
    narrow_ledgers store
      (record { handle = 0; row = amounts 2 } ∷ record { handle = 1; row = amounts 2 } ∷ []) store

abbrev narrowed_memory : Memory
narrowed_memory = narrow_memory memory (record { handle = 0; capacity = 30 } ∷ []) memory

narrowed :
    narrow_peer_reservations ledger_rows memory_rows store memory
    ≡ ok (narrowed_store, narrowed_memory)
unfolding narrow_peer_reservations check_ledgers check_covered check_memory
narrowed = refl

-- The root keeps reserved for its child what the child keeps.
root_reserved : (narrowed_store.at 0).reserved.cells ≡ 2
unfolding narrow_ledgers
root_reserved = refl

pool_reserved : (narrowed_memory.pool_at 0).reserved_bytes ≡ 30
unfolding narrow_memory
pool_reserved = refl

-- The root alone would not cover its child, and no ledger is named twice.
uncovered : narrow_peer_reservations (row 0 2 ∷ []) [] store memory ≡ err invalid_route
unfolding narrow_peer_reservations check_ledgers check_covered
uncovered = refl

twice : narrow_peer_reservations (row 1 2 ∷ row 1 2 ∷ []) [] store memory ≡ err invalid_route
unfolding narrow_peer_reservations check_ledgers
twice = refl

narrow_peer_reservations-Lowers_example :
    LowersLedgers store narrowed_store × LowersMemory memory narrowed_memory
narrow_peer_reservations-Lowers_example =
    narrow_peer_reservations-Lowers ledger_rows memory_rows store narrowed_store memory
      narrowed_memory narrowed

narrow_peer_reservations-IsDone_example :
    IsDone ledger_rows memory_rows (narrowed_store, narrowed_memory)
narrow_peer_reservations-IsDone_example =
    narrow_peer_reservations-IsDone ledger_rows memory_rows store narrowed_store memory
      narrowed_memory narrowed
