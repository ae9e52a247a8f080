-- ===== src/Ledger/Memory.antt =====
-- lib/private/peer-ledger.js: memory pools, the reservations from them, and the child pool of a
-- reservation that is taken. Pools and reservations are numbered in the order of their creation; a
-- handle that is in neither WeakMap is `foreign`.
pub mod Bounds
mod Tests
use hyperdht.Prelude.{
  ℕ, zero, suc, ◌+◌, ◌-◌, ◌≤◌, Bool, true, false, not, ◌&&◌, ◌||◌, Option, none, some, List, [],
  ◌∷◌, ◌++◌, ltb, ◌==◌, if◌then◌else◌,
}
use hyperdht.Errors.{Result, ok, err, invalid_route, ◌>>=◌, ◌>>◌}
use hyperdht.Values.{Value}
use hyperdht.Ledger.{check_u32}
use hyperdht.Ledger.Budget.{require}

pub data Handle : Type 0 where
  pool : ℕ → Handle
  reservation : ℕ → Handle
  foreign : Handle

-- `kind`: a string that is not empty, numbered, or any other value.
pub data Kind : Type 0 where
  named : ℕ → Kind
  unnamed : Kind

pub record Pool : Type 0 where
  pub capacity_bytes : ℕ
  pub reserved_bytes : ℕ
  pub taken_bytes : ℕ
  pub released : Bool
  pub reservations : List ℕ
  pub parent_reservation : Option ℕ

pub record Reservation : Type 0 where
  pub pool : ℕ
  pub kind : Kind
  pub capacity_bytes : ℕ
  pub taken : Bool
  pub child_pool : Option ℕ
  pub released : Bool

pub record Memory : Type 0 where
  pub next_pool : ℕ
  pub pool_at : ℕ → Pool
  pub next_reservation : ℕ
  pub reservation_at : ℕ → Reservation

abbrev pub write_pool : Memory → ℕ → Pool → Memory
write_pool m p x = record m { pool_at = λ k. if k == p then x else m.pool_at k }

abbrev pub write_reservation : Memory → ℕ → Reservation → Memory
write_reservation m r x = record m {
  reservation_at = λ k. if k == r then x else m.reservation_at k;
}

abbrev pub fresh_pool : ℕ → Option ℕ → Pool
fresh_pool capacity parent = record {
  capacity_bytes = capacity;
  reserved_bytes = 0;
  taken_bytes = 0;
  released = false;
  reservations = [];
  parent_reservation = parent;
}

abbrev pub add_pool : Memory → Pool → Memory
add_pool m x = record (write_pool m m.next_pool x) { next_pool = suc m.next_pool }

abbrev pub add_reservation : Memory → Reservation → Memory
add_reservation m x = record (write_reservation m m.next_reservation x) {
  next_reservation = suc m.next_reservation;
}

-- `createPeerMemoryPool(capacityBytes)`
unfoldable pub create_peer_memory_pool : Value → Memory → Result (Handle × Memory)
create_peer_memory_pool capacity m = do
  bytes ← check_u32 capacity
  ok (Handle.pool m.next_pool, add_pool m (fresh_pool bytes none))

abbrev pub live_pool : Memory → Handle → Result ℕ
live_pool m (pool p) =
    if ltb p m.next_pool && not (m.pool_at p).released then ok p else err invalid_route
live_pool m _ = err invalid_route

abbrev pub check_kind : Kind → Result (Unit {0})
check_kind (named k) = ok tt
check_kind unnamed = err invalid_route

abbrev pub reserve_from : Pool → ℕ → ℕ → Pool
reserve_from x bytes r = record x {
  reserved_bytes = x.reserved_bytes + bytes;
  reservations = x.reservations ++ (r ∷ []);
}

abbrev pub fresh_reservation : ℕ → Kind → ℕ → Reservation
fresh_reservation p kind bytes = record {
  pool = p;
  kind = kind;
  capacity_bytes = bytes;
  taken = false;
  child_pool = none;
  released = false;
}

-- `reservePeerMemory(poolHandle, kind, capacityBytes)`
unfoldable pub reserve_peer_memory : Handle → Kind → Value → Memory → Result (Handle × Memory)
reserve_peer_memory handle kind capacity m = do
  p ← live_pool m handle
  check_kind kind
  bytes ← check_u32 capacity
  require (not (ltb ((m.pool_at p).capacity_bytes - (m.pool_at p).reserved_bytes) bytes))
  ok (
    Handle.reservation m.next_reservation,
    add_reservation (write_pool m p (reserve_from (m.pool_at p) bytes m.next_reservation))
        (fresh_reservation p kind bytes),
  )

abbrev pub pending : Memory → Handle → Result ℕ
pending m (reservation r) =
    if ltb r m.next_reservation && not ((m.reservation_at r).released || (m.reservation_at r).taken)
    then ok r
    else err invalid_route
pending m _ = err invalid_route

-- The pool of a reservation counts its bytes as taken.
abbrev pub take_from : Pool → ℕ → Pool
take_from x bytes = record x { taken_bytes = x.taken_bytes + bytes }

abbrev pub taken_with : Reservation → ℕ → Reservation
taken_with r child = record r { taken = true; child_pool = some child }

-- `takePeerMemory(resHandle)`
unfoldable pub take_peer_memory : Handle → Memory → Result (Handle × Memory)
take_peer_memory handle m = do
  r ← pending m handle
  let x = m.reservation_at r
  let counted = write_pool m x.pool (take_from (m.pool_at x.pool) x.capacity_bytes)
  ok (
    Handle.pool m.next_pool,
    add_pool (write_reservation counted r (taken_with x m.next_pool))
        (fresh_pool x.capacity_bytes (some r)),
  )

abbrev pub remove : ℕ → List ℕ → List ℕ
remove h [] = []
remove h (k ∷ rest) = if k == h then rest else k ∷ remove h rest

abbrev pub for_each : (ℕ → Memory → Memory) → List ℕ → Memory → Memory
for_each f [] m = m
for_each f (k ∷ rest) m = for_each f rest (f k m)

-- A pool gets back the bytes of a reservation, and those that were taken.
abbrev pub return_to : Pool → ℕ → Reservation → Pool
return_to x r given = record x {
  reservations = remove r x.reservations;
  reserved_bytes = x.reserved_bytes - given.capacity_bytes;
  taken_bytes = if given.taken then x.taken_bytes - given.capacity_bytes else x.taken_bytes;
}

abbrev pub close_pool : Memory → ℕ → Memory
close_pool m p = write_pool m p (record (m.pool_at p) { released = true })

abbrev pub clear_pool : ℕ → Memory → Memory
clear_pool p m = write_pool m p (record (m.pool_at p) { reservations = [] })

-- The loop over the reservations of a child pool. Those that it meets are deleted from the Set as it
-- goes, so that it meets each of them once.
abbrev pub release_child : (ℕ → Memory → Memory) → Option ℕ → Memory → Memory
release_child f none m = m
release_child f (some p) m =
    let below = for_each f (m.pool_at p).reservations (close_pool m p) in
    if (m.pool_at p).released then m else clear_pool p below

-- `_releaseReservation(resState)`. Each child pool is newer than the one it was taken from, so that
-- the recursion is at most `next_pool` deep.
unfoldable pub release_reservation : ℕ → ℕ → Memory → Memory
release_reservation zero r m = m
release_reservation (suc fuel) r m =
    let x = m.reservation_at r in
    let freed = write_reservation m r (record x { released = true }) in
    let returned = write_pool freed x.pool (return_to (m.pool_at x.pool) r x) in
    let below = release_child (release_reservation fuel) x.child_pool returned in
    if x.released then m else if x.taken then below else returned

abbrev pub release_parent : ℕ → Option ℕ → Memory → Memory
release_parent fuel none m = m
release_parent fuel (some r) m = release_reservation fuel r m

-- `releasePeerMemory` of a pool.
unfoldable pub release_pool : ℕ → ℕ → Memory → Memory
unfolding release_reservation
release_pool fuel p m =
    let x = m.pool_at p in
    let below = for_each (release_reservation fuel) x.reservations (close_pool m p) in
    if x.released then m else release_parent fuel x.parent_reservation (clear_pool p below)

-- `releasePeerMemory(handle)`
unfoldable pub release_peer_memory : Handle → Memory → Result (Bool × Memory)
unfolding release_pool release_reservation
release_peer_memory (pool p) m =
    if ltb p m.next_pool
    then ok (not (m.pool_at p).released, release_pool (suc m.next_pool) p m)
    else err invalid_route
release_peer_memory (reservation r) m =
    if ltb r m.next_reservation
    then ok (not (m.reservation_at r).released, release_reservation (suc m.next_pool) r m)
    else err invalid_route
release_peer_memory foreign m = err invalid_route

pub data Reading : Type 0 where
  pool_reading : (capacity reserved taken remaining : ℕ) (released : Bool) → Reading
  reservation_reading : (kind : Kind) (capacity : ℕ) (taken released : Bool) → Reading

-- `readPeerMemory(handle)`
unfoldable pub read_peer_memory : Handle → Memory → Result Reading
read_peer_memory (pool p) m =
    let x = m.pool_at p in
    if ltb p m.next_pool
    then ok (
        pool_reading x.capacity_bytes x.reserved_bytes x.taken_bytes
          (x.capacity_bytes - x.reserved_bytes) x.released)
    else err invalid_route
read_peer_memory (reservation r) m =
    let x = m.reservation_at r in
    if ltb r m.next_reservation
    then ok (reservation_reading x.kind x.capacity_bytes x.taken x.released)
    else err invalid_route
read_peer_memory foreign m = err invalid_route
