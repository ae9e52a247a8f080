-- ===== src/Ledger/Accounts.antt =====
-- lib/private/peer-ledger.js: ledgers that reserve amounts from a parent and spend them. The WeakMap
-- `ledgers` and its state objects are a store that numbers the handles in the order of their
-- creation; a number not below `next` is a handle that is not in the map.
pub mod Sums
pub mod Balance
pub mod Charge
pub mod Reserve
pub mod Read
pub mod Release
mod Tests
use hyperdht.Prelude.{
  ℕ, zero, suc, ◌+◌, ◌-◌, ◌≤◌, Bool, true, false, not, ◌&&◌, ◌||◌, Option, none, some, List, [],
  ◌∷◌, ◌++◌, ltb, leb, ◌==◌, if◌then◌else◌,
}
use hyperdht.Errors.{Result, ok, err, invalid_route, ◌>>=◌, ◌>>◌}
use hyperdht.Values.{Value}
use hyperdht.Ledger.{Exact, inexact, exact, properties, check_u32, check_u64}
use hyperdht.Ledger.Budget.{Row, require}

pub record Ledger : Type 0 where
  pub parent : Option ℕ
  pub allocated : Row
  pub spent : Row
  pub reserved : Row
  pub direct_cells_spent : ℕ
  pub released : Bool
  pub children : List ℕ

pub record Store : Type 0 where
  pub next : ℕ
  pub at : ℕ → Ledger

-- The options of a request. Other own properties are ignored.
pub record Request : Type 0 where
  pub cells : Value
  pub bytes : Value
  pub commands : Value

abbrev pub no_row : Row
no_row = record { cells = 0; bytes = 0; commands = 0 }

abbrev pub plus : Row → Row → Row
plus a b = record {
  cells = a.cells + b.cells;
  bytes = a.bytes + b.bytes;
  commands = a.commands + b.commands;
}

abbrev pub minus : Row → Row → Row
minus a b = record {
  cells = a.cells - b.cells;
  bytes = a.bytes - b.bytes;
  commands = a.commands - b.commands;
}

abbrev pub fits : Row → Row → Bool
fits a b = not (ltb b.cells a.cells || (ltb b.bytes a.bytes || ltb b.commands a.commands))

-- What a ledger can still spend or reserve. The source's Numbers would be negative where ℕ stops at
-- 0; `IsSound` excludes that.
abbrev pub remaining : Ledger → Row
remaining l = minus (minus l.allocated l.spent) l.reserved

abbrev pub read_request : Exact Request → Result Row
read_request given = do
  request ← properties given
  cells ← check_u32 request.cells
  bytes ← check_u64 request.bytes
  commands ← check_u32 request.commands
  ok (record { cells = cells; bytes = bytes; commands = commands })

-- `ledgers.get(handle)`
abbrev pub get : Store → ℕ → Result Ledger
get s h = if ltb h s.next then ok (s.at h) else err invalid_route

abbrev pub get_live : Store → ℕ → Result Ledger
get_live s h = get s h >>= λ l. if l.released then err invalid_route else ok l

-- `ledgers.set(handle, state)`, and an assignment to fields of a state.
abbrev pub write : Store → ℕ → Ledger → Store
write s h l = record s { at = λ k. if k == h then l else s.at k }

abbrev pub fresh : Option ℕ → Row → Ledger
fresh parent row = record {
  parent = parent;
  allocated = row;
  spent = no_row;
  reserved = no_row;
  direct_cells_spent = 0;
  released = false;
  children = [];
}

-- A new handle is the store's next number.
abbrev pub add_ledger : Store → Ledger → Store
add_ledger s l = record (write s s.next l) { next = suc s.next }

-- `createPeerLedger(options)`
unfoldable pub create_peer_ledger : Exact Request → Store → Result (ℕ × Store)
create_peer_ledger given s = do row ← read_request given; ok (s.next, add_ledger s (fresh none row))

abbrev pub reserve_from : Ledger → Row → ℕ → Ledger
reserve_from l row child = record l {
  reserved = plus l.reserved row;
  children = l.children ++ (child ∷ []);
}

-- `reservePeerLedger(parentHandle, options)`
unfoldable pub reserve_peer_ledger : ℕ → Exact Request → Store → Result (ℕ × Store)
reserve_peer_ledger parent given s = do
  l ← get_live s parent
  row ← read_request given
  require (fits row (remaining l))
  ok (s.next, add_ledger (write s parent (reserve_from l row s.next)) (fresh (some parent) row))

-- What a charge does to the charged ledger, and to each ledger above it.
abbrev pub charged : Ledger → Row → Ledger
charged l row = record l {
  spent = plus l.spent row;
  direct_cells_spent = l.direct_cells_spent + row.cells;
}

abbrev pub charged_below : Ledger → Row → Ledger
charged_below l row = record l { reserved = minus l.reserved row; spent = plus l.spent row }

-- The loop over the ancestors. Each parent has a smaller number than its child, so that `next` rounds
-- are enough.
unfoldable pub charge_up : ℕ → Option ℕ → Row → Store → Store
charge_up fuel none row s = s
charge_up zero (some p) row s = s
charge_up (suc fuel) (some p) row s =
    charge_up fuel (s.at p).parent row (write s p (charged_below (s.at p) row))

-- `chargePeerLedger(handle, options)`
unfoldable pub charge_peer_ledger : ℕ → Exact Request → Store → Result Store
unfolding charge_up
charge_peer_ledger handle given s = do
  l ← get_live s handle
  row ← read_request given
  require (fits row (remaining l))
  ok (charge_up s.next l.parent row (write s handle (charged l row)))

abbrev pub remove : ℕ → List ℕ → List ℕ
remove h [] = []
remove h (k ∷ rest) = if k == h then rest else k ∷ remove h rest

-- The end of a release: the parent gets back what was not spent.
abbrev pub give_back_to : Ledger → ℕ → Ledger → Ledger
give_back_to l h parent = record parent {
  reserved = minus parent.reserved (minus l.allocated l.spent);
  children = remove h parent.children;
}

abbrev pub give_back : Option ℕ → ℕ → Store → Store
give_back none h s = s
give_back (some p) h s = write s p (give_back_to (s.at h) h (s.at p))

abbrev pub for_each : (ℕ → Store → Store) → List ℕ → Store → Store
for_each f [] s = s
for_each f (k ∷ rest) s = for_each f rest (f k s)

-- `releasePeerLedger` of a handle in the map. Each child has a larger number than its parent, so
-- that the recursion is at most `next` deep.
unfoldable pub release_at : ℕ → ℕ → Store → Store
release_at zero h s = s
release_at (suc fuel) h s =
    let l = s.at h in
    let below = for_each (release_at fuel) l.children (write s h (record l { released = true })) in
    let cleared = write below h (record (below.at h) { children = [] }) in
    if l.released then s else give_back l.parent h cleared

-- `releasePeerLedger(handle)`: false where the ledger was released before.
unfoldable pub release_peer_ledger : ℕ → Store → Result (Bool × Store)
unfolding release_at
release_peer_ledger handle s = do l ← get s handle; ok (not l.released, release_at s.next handle s)

pub record Reading : Type 0 where
  pub allocated : Row
  pub spent : Row
  pub reserved : Row
  pub remaining : Row
  pub released : Bool

-- `readPeerLedger(handle)`
unfoldable pub read_peer_ledger : ℕ → Store → Result Reading
read_peer_ledger handle s = do
  l ← get s handle
  ok (record {
    allocated = l.allocated;
    spent = l.spent;
    reserved = l.reserved;
    remaining = remaining l;
    released = l.released;
  })

-- `readPeerLedgerDirectCells(handle)`
unfoldable pub read_peer_ledger_direct_cells : ℕ → Store → Result ℕ
read_peer_ledger_direct_cells handle s = get s handle >>= λ l. ok l.direct_cells_spent

-- The loop of `isPeerLedgerWithin` over the ancestors.
unfoldable pub is_above : ℕ → ℕ → Option ℕ → Store → Bool
is_above fuel root none s = false
is_above zero root (some p) s = false
is_above (suc fuel) root (some p) s =
    let above = is_above fuel root (s.at p).parent s in p == root || above

-- `isPeerLedgerWithin(ledger, ancestor)`
unfoldable pub is_peer_ledger_within : ℕ → ℕ → Store → Bool
unfolding is_above
is_peer_ledger_within ledger ancestor s =
    if not (ltb ledger s.next && ltb ancestor s.next)
      || ((s.at ledger).released || (s.at ancestor).released)
    then false
    else is_above s.next ancestor (s.at ledger).parent s
