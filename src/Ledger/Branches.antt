-- ===== src/Ledger/Branches.antt =====
-- lib/private/peer-ledger.js, the branch slots: pools of branches with four root ledgers each. The
-- WeakMaps `branchSlotPools` and `branchAuthorities` are numbered in the order of creation, as the
-- ledgers are. A kind of `BRANCH_KINDS` is its place in that list.
pub mod Live
pub mod Sound
pub mod Kept
pub mod Calls
pub mod Run
pub mod Spent
pub mod Retired
pub mod Closed
pub mod Revoked
mod Tests
use hyperdht.Prelude.{
  ℕ, zero, suc, ◌≡◌, Bool, true, false, not, ◌||◌, List, [], ◌∷◌, ◌++◌, length, ltb, leb, ◌==◌,
  if◌then◌else◌, none,
}
use hyperdht.Errors.{Result, ok, err, invalid_route, quota_exceeded, ◌>>=◌, ◌>>◌}
use hyperdht.Values.{Value}
use hyperdht.Ledger.{Exact, properties, check_u32}
use hyperdht.Ledger.Budget.{Row, require}
use hyperdht.Ledger.Accounts.{
  Store, Request, no_row, plus, read_request, fresh, add_ledger, remove, release_at,
  reserve_peer_ledger, charge_peer_ledger, release_peer_ledger,
}

-- `live` in the order of insertion, and the spending of the retired branches for each kind.
pub record Pool : Type 0 where
  pub capacity : ℕ
  pub live : List ℕ
  pub retired : ℕ
  pub closed : Bool
  pub retired_spent : List Row

-- An authority with its state: the handles of its roots, one for each kind.
pub record Authority : Type 0 where
  pub pool : ℕ
  pub released : Bool
  pub join_deferred : Bool
  pub roots : List ℕ

pub record Slots : Type 0 where
  pub ledgers : Store
  pub next_pool : ℕ
  pub pools : ℕ → Pool
  pub next_authority : ℕ
  pub authorities : ℕ → Authority

-- `BRANCH_KINDS`, `emptySpent()`
abbrev pub branch_kinds : List ℕ
branch_kinds = 0 ∷ 1 ∷ 2 ∷ 3 ∷ []

abbrev pub empty_spent : List ℕ → List Row
empty_spent [] = []
empty_spent (kind ∷ rest) = no_row ∷ empty_spent rest

abbrev pub get_pool : Slots → ℕ → Result Pool
get_pool s h = if ltb h s.next_pool then ok (s.pools h) else err invalid_route

abbrev pub get_authority : Slots → ℕ → Result Authority
get_authority s h = if ltb h s.next_authority then ok (s.authorities h) else err invalid_route

abbrev pub set_pool : Slots → ℕ → Pool → Slots
set_pool s h pool = record s { pools = λ k. if k == h then pool else s.pools k }

abbrev pub set_authority : Slots → ℕ → Authority → Slots
set_authority s h authority = record s {
  authorities = λ k. if k == h then authority else s.authorities k;
}

abbrev pub new_pool : ℕ → Pool
new_pool capacity = record {
  capacity = capacity;
  live = [];
  retired = 0;
  closed = false;
  retired_spent = empty_spent branch_kinds;
}

abbrev pub add_pool : Slots → Pool → Slots
add_pool s pool = record (set_pool s s.next_pool pool) { next_pool = suc s.next_pool }

-- `createPeerBranchSlots(capacity)`
unfoldable pub create_peer_branch_slots : Value → Slots → Result (ℕ × Slots)
create_peer_branch_slots capacity s = do
  n ← check_u32 capacity
  require (not (ltb n 1))
  ok (s.next_pool, add_pool s (new_pool n))

-- The rows of a take, by kind.
abbrev pub BranchRows : Type 0
BranchRows = ℕ → Exact Request

abbrev pub read_plan : BranchRows → List ℕ → Result (List Row)
read_plan rows [] = ok []
read_plan rows (kind ∷ rest) = do
  row ← read_request (rows kind)
  plan ← read_plan rows rest
  ok (row ∷ plan)

-- The roots. The rows have been checked, so that `createPeerLedger` refuses none.
abbrev pub add_roots : List Row → Store → List ℕ × Store
add_roots [] s = ([], s)
add_roots (row ∷ rest) s =
    let later = add_roots rest (add_ledger s (fresh none row)) in (s.next ∷ later.0, later.1)

abbrev pub enter : Pool → ℕ → Pool
enter pool authority = record pool { live = pool.live ++ (authority ∷ []) }

abbrev pub branch : ℕ → List ℕ → Authority
branch pool roots = record { pool = pool; released = false; join_deferred = false; roots = roots }

abbrev pub add_authority : Slots → ℕ → List ℕ → Store → Slots
add_authority s p roots ledgers =
    let entered = set_pool s p (enter (s.pools p) s.next_authority) in
    record (set_authority entered s.next_authority (branch p roots)) {
      ledgers = ledgers;
      next_authority = suc s.next_authority;
    }

-- `takePeerBranchAuthority(slotsHandle, rows)`
unfoldable pub take_peer_branch_authority : ℕ → Exact BranchRows → Slots → Result (ℕ × Slots)
take_peer_branch_authority slots given s = do
  pool ← get_pool s slots
  rows ← properties given
  plan ← read_plan rows branch_kinds
  require (not pool.closed)
  if leb pool.capacity (length pool.live)
      then err quota_exceeded
      else ok (
        s.next_authority,
        add_authority s slots (add_roots plan s.ledgers).0 (add_roots plan s.ledgers).1,
      )

-- `deferPeerBranchAuthorityJoin(authority)`
unfoldable pub defer_peer_branch_authority_join : ℕ → Slots → Result (Bool × Slots)
defer_peer_branch_authority_join authority s = do
  state ← get_authority s authority
  if state.released
      then err invalid_route
      else if state.join_deferred
      then ok (false, s)
      else ok (true, set_authority s authority (record state { join_deferred = true }))

-- The loop of a release over the kinds: `addSpent`, then `releasePeerLedger` of the root.
unfoldable pub retire_roots : List ℕ → List Row → Store → List Row × Store
retire_roots [] totals s = (totals, s)
retire_roots (root ∷ roots) [] s = ([], (retire_roots roots [] (release_at s.next root s)).1)
retire_roots (root ∷ roots) (total ∷ totals) s =
    let rest = retire_roots roots totals (release_at s.next root s) in
    (plus total (s.at root).spent ∷ rest.0, rest.1)

abbrev pub leave : Pool → ℕ → List Row → Pool
leave pool authority spent = record pool {
  live = remove authority pool.live;
  retired = suc pool.retired;
  retired_spent = spent;
}

-- The release of an authority in the map that was not released.
abbrev pub retire : ℕ → Slots → Slots
retire authority s =
    let state = s.authorities authority in
    let pool = s.pools state.pool in
    let gone = retire_roots state.roots pool.retired_spent s.ledgers in
    let marked = set_authority s authority (record state { released = true }) in
    record (set_pool marked state.pool (leave pool authority gone.0)) { ledgers = gone.1 }

-- `releasePeerBranchAuthority(authority)`
unfoldable pub release_peer_branch_authority : ℕ → Slots → Result (Bool × Slots)
unfolding retire_roots
release_peer_branch_authority authority s = do
  state ← get_authority s authority
  if state.released then ok (false, s) else ok (true, retire authority s)

-- The loop of a close over the branches that were live.
abbrev pub revoke : ℕ → Slots → Slots
revoke authority s =
    if (s.authorities authority).join_deferred || (s.authorities authority).released
    then s
    else retire authority s

unfoldable pub revoke_all : List ℕ → Slots → Slots
unfolding retire_roots
revoke_all [] s = s
revoke_all (authority ∷ rest) s = revoke_all rest (revoke authority s)

-- `closePeerBranchSlots(slotsHandle)`
unfoldable pub close_peer_branch_slots : ℕ → Slots → Result (Bool × Slots)
unfolding revoke_all
close_peer_branch_slots slots s = do
  pool ← get_pool s slots
  if pool.closed
      then ok (false, s)
      else ok (true, revoke_all pool.live (set_pool s slots (record pool { closed = true })))

-- What the roots of a branch add to the totals.
abbrev pub add_spent : Store → List ℕ → List Row → List Row
add_spent s [] totals = totals
add_spent s (root ∷ roots) [] = []
add_spent s (root ∷ roots) (total ∷ totals) =
    plus total (s.at root).spent ∷ add_spent s roots totals

abbrev pub add_held : Store → List ℕ → List Row → List Row
add_held s [] totals = totals
add_held s (root ∷ roots) [] = []
add_held s (root ∷ roots) (total ∷ totals) =
    plus total (s.at root).allocated ∷ add_held s roots totals

abbrev pub sum_live :
    (List ℕ → List Row → List Row) → (ℕ → Authority) → List ℕ → List Row → List Row
sum_live add authorities [] totals = totals
sum_live add authorities (a ∷ rest) totals =
    sum_live add authorities rest (add (authorities a).roots totals)

pub record SlotsReading : Type 0 where
  pub capacity : ℕ
  pub live : ℕ
  pub retired : ℕ
  pub closed : Bool
  pub reserved : List Row
  pub spent : List Row

abbrev pub reading : Slots → Pool → SlotsReading
reading s pool = record {
  capacity = pool.capacity;
  live = length pool.live;
  retired = pool.retired;
  closed = pool.closed;
  reserved = sum_live (add_held s.ledgers) s.authorities pool.live (empty_spent branch_kinds);
  spent = sum_live (add_spent s.ledgers) s.authorities pool.live pool.retired_spent;
}

-- `readPeerBranchSlots(slotsHandle)`
unfoldable pub read_peer_branch_slots : ℕ → Slots → Result SlotsReading
read_peer_branch_slots slots s = get_pool s slots >>= λ pool. ok (reading s pool)
