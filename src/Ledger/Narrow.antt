-- ===== src/Ledger/Narrow.antt =====
-- lib/private/peer-ledger.js: `narrowPeerReservations`, which lowers the allocations of ledgers and
-- the capacities of memory reservations together.
pub mod Lowered
pub mod Asked
mod Tests
use hyperdht.Prelude.{
  ℕ, ◌+◌, ◌-◌, Bool, true, false, not, ◌||◌, Option, none, some, List, [], ◌∷◌, ltb, ◌==◌,
  if◌then◌else◌,
}
use hyperdht.Errors.{Result, ok, err, invalid_route, ◌>>=◌, ◌>>◌}
use hyperdht.Values.{Value}
use hyperdht.Ledger.{Exact, check_u32}
use hyperdht.Ledger.Budget.{Row, require}
use hyperdht.Ledger.Accounts.{
  Ledger, Store, Request, no_row, plus, minus, fits, read_request, get_live, write,
}
use hyperdht.Ledger.Memory.{Memory, Reservation, write_pool, write_reservation}

-- The rows of the options `ledgers` and `memory`. A handle that is in no map is a number that was not
-- given yet.
pub record LedgerRow : Type 0 where
  pub ledger : ℕ
  pub amounts : Exact Request

pub record MemoryRow : Type 0 where
  pub reservation : ℕ
  pub capacity_bytes : Value

pub record LedgerPlan : Type 0 where
  pub handle : ℕ
  pub row : Row

pub record MemoryPlan : Type 0 where
  pub handle : ℕ
  pub capacity : ℕ

abbrev pub read_ledger_rows : List LedgerRow → Result (List LedgerPlan)
read_ledger_rows [] = ok []
read_ledger_rows (given ∷ rest) = do
  row ← read_request given.amounts
  plans ← read_ledger_rows rest
  ok (record { handle = given.ledger; row = row } ∷ plans)

abbrev pub read_memory_rows : List MemoryRow → Result (List MemoryPlan)
read_memory_rows [] = ok []
read_memory_rows (given ∷ rest) = do
  capacity ← check_u32 given.capacity_bytes
  plans ← read_memory_rows rest
  ok (record { handle = given.reservation; capacity = capacity } ∷ plans)

-- `seen.has(handle)`
abbrev pub is_seen : ℕ → List ℕ → Bool
is_seen h [] = false
is_seen h (k ∷ rest) = k == h || is_seen h rest

abbrev pub returned : Store → LedgerPlan → Row
returned s plan = minus (s.at plan.handle).allocated plan.row

-- The first loop over the ledger plans.
unfoldable pub check_ledgers : Store → List ℕ → List LedgerPlan → Result (Unit {0})
check_ledgers s seen [] = ok tt
check_ledgers s seen (plan ∷ rest) = do
  l ← get_live s plan.handle
  require (not (is_seen plan.handle seen))
  require (fits plan.row l.allocated)
  check_ledgers s (plan.handle ∷ seen) rest

abbrev pub is_parent : ℕ → Option ℕ → Bool
is_parent p none = false
is_parent p (some q) = q == p

-- `returnedToParent.get(state)`, or zeros.
abbrev pub returned_to : Store → ℕ → List LedgerPlan → Row
returned_to s p [] = no_row
returned_to s p (plan ∷ rest) =
    let later = returned_to s p rest in
    if is_parent p (s.at plan.handle).parent then plus (returned s plan) later else later

-- The second loop: each ledger covers what it has spent and what stays reserved from it.
unfoldable pub check_covered : Store → List LedgerPlan → List LedgerPlan → Result (Unit {0})
check_covered s all [] = ok tt
check_covered s all (plan ∷ rest) = do
  let l = s.at plan.handle
  require (fits (minus (plus l.spent l.reserved) (returned_to s plan.handle all)) plan.row)
  check_covered s all rest

unfoldable pub check_memory : Memory → List ℕ → List MemoryPlan → Result (Unit {0})
check_memory m seen [] = ok tt
check_memory m seen (plan ∷ rest) = do
  let r = m.reservation_at plan.handle
  require (ltb plan.handle m.next_reservation)
  require (not r.released)
  require (not (is_seen plan.handle seen))
  require (not (ltb r.capacity_bytes plan.capacity))
  require (not r.taken || plan.capacity == r.capacity_bytes)
  check_memory m (plan.handle ∷ seen) rest

-- What is published for a plan. A parent gets back what `returned` was before.
abbrev pub give_back : Option ℕ → Row → Store → Store
give_back none row s = s
give_back (some p) row s = write s p (record (s.at p) { reserved = minus (s.at p).reserved row })

abbrev pub narrow_ledger : Store → LedgerPlan → Store → Store
narrow_ledger before plan s =
    give_back (s.at plan.handle).parent (returned before plan)
      (write s plan.handle (record (s.at plan.handle) { allocated = plan.row }))

unfoldable pub narrow_ledgers : Store → List LedgerPlan → Store → Store
narrow_ledgers before [] s = s
narrow_ledgers before (plan ∷ rest) s = narrow_ledgers before rest (narrow_ledger before plan s)

abbrev pub narrow_reservation : Memory → MemoryPlan → Memory → Memory
narrow_reservation before plan m =
    let r = m.reservation_at plan.handle in
    let bytes = (before.reservation_at plan.handle).capacity_bytes - plan.capacity in
    let x = m.pool_at r.pool in
    write_pool (write_reservation m plan.handle (record r { capacity_bytes = plan.capacity }))
      r.pool (record x { reserved_bytes = x.reserved_bytes - bytes })

unfoldable pub narrow_memory : Memory → List MemoryPlan → Memory → Memory
narrow_memory before [] m = m
narrow_memory before (plan ∷ rest) m = narrow_memory before rest (narrow_reservation before plan m)

-- `narrowPeerReservations(options)`. That both are arrays is part of the arguments' types.
unfoldable pub narrow_peer_reservations :
    List LedgerRow → List MemoryRow → Store → Memory → Result (Store × Memory)
unfolding check_ledgers check_covered check_memory narrow_ledgers narrow_memory
narrow_peer_reservations ledgers memory s m = do
  ledger_plans ← read_ledger_rows ledgers
  memory_plans ← read_memory_rows memory
  check_ledgers s [] ledger_plans
  check_covered s ledger_plans ledger_plans
  check_memory m [] memory_plans
  ok (narrow_ledgers s ledger_plans s, narrow_memory m memory_plans m)
