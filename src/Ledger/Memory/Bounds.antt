-- ===== src/Ledger/Memory/Bounds.antt =====
-- About the memory pools of lib/private/peer-ledger.js: what they hand out and get back.
use hyperdht.Prelude.{
  ℕ, suc, ◌-◌, ◌≤◌, ◌<◌, ◌≡◌, true, false, not, ◌&&◌, ltb, arith, Bool-cases, inl, inr, ap,
  transport,
}
use hyperdht.Ledger.Accounts.Balance.{require-Ensures}
use hyperdht.Errors.{ok, err, invalid_route, ◌>>=◌, ◌>>◌, Ensures, bind-Ensures, ensured}
use hyperdht.Values.{Value}
use hyperdht.Ledger.{check_u32}
use hyperdht.Ledger.Budget.{require}
use hyperdht.Ledger.Memory.{
  Memory, Handle, Kind, write_pool, add_reservation, reserve_from, fresh_reservation, live_pool,
  check_kind, reserve_peer_memory, take_peer_memory, pending, release_reservation,
  release_peer_memory,
}

-- Every pool has reserved at most its capacity.
abbrev pub IsWithin : Memory → Type 0
IsWithin m = (p : ℕ) → p < m.next_pool → (m.pool_at p).reserved_bytes ≤ (m.pool_at p).capacity_bytes

reserved-IsWithin :
    (m : Memory) (p r bytes : ℕ)
    → IsWithin m
    → not (ltb ((m.pool_at p).capacity_bytes - (m.pool_at p).reserved_bytes) bytes) ≡ true
    → IsWithin (write_pool m p (reserve_from (m.pool_at p) bytes r))
reserved-IsWithin m p r bytes within fit q below = ground (arith, within q below)

-- For every memory in which no pool has reserved more than its capacity: after an accepted
-- reservation that is still so.
pub reserve_peer_memory-IsWithin :
    (h : Handle) (kind : Kind) (v : Value) (m t : Memory) (r : Handle)
    → IsWithin m
    → reserve_peer_memory h kind v m ≡ ok (r, t)
    → IsWithin t
unfolding reserve_peer_memory
reserve_peer_memory-IsWithin h kind v m t r within =
    let P = λ (x : Handle × Memory). IsWithin x.1 in
    ensured P (reserve_peer_memory h kind v m) (r, t)
      (bind-Ensures P (live_pool m h) _ λ p. bind-Ensures P (check_kind kind) _ λ _.
        bind-Ensures P (check_u32 v) _ λ bytes.
          require-Ensures P
            (not (ltb ((m.pool_at p).capacity_bytes - (m.pool_at p).reserved_bytes) bytes)) _
            λ fit. reserved-IsWithin m p m.next_reservation bytes within fit)

-- For every memory in which no pool has reserved more than its capacity: after a reservation has been
-- taken that is still so, and it holds of the new child pool.
pub take_peer_memory-IsWithin :
    (h : Handle) (m t : Memory) (c : Handle)
    → IsWithin m
    → take_peer_memory h m ≡ ok (c, t)
    → IsWithin t
unfolding take_peer_memory
take_peer_memory-IsWithin h m t c within =
    let P = λ (x : Handle × Memory). IsWithin x.1 in
    ensured P (take_peer_memory h m) (c, t)
      (bind-Ensures P (pending m h) _ λ r q below. ground (arith, within q))

-- The release of a reservation undoes what it did to the bytes of pool p.
abbrev pub IsUndone : ℕ → Memory → Handle → Memory → Type 0
IsUndone p m r t =
    (u : Memory) × (release_peer_memory r t ≡ ok (true, u))
    × ((u.pool_at p).reserved_bytes ≡ (m.pool_at p).reserved_bytes)
    × ((u.pool_at p).taken_bytes ≡ (m.pool_at p).taken_bytes)

module _ (p : ℕ) (kind : Kind) (bytes : ℕ) (m : Memory) where
  abbrev reserved : Memory
  reserved =
      add_reservation (write_pool m p (reserve_from (m.pool_at p) bytes m.next_reservation))
        (fresh_reservation p kind bytes)

  reserved-IsUndone : IsUndone p m (Handle.reservation m.next_reservation) reserved
  unfolding release_peer_memory release_reservation
  reserved-IsUndone = (
    release_reservation (suc reserved.next_pool) m.next_reservation reserved,
    ground arith,
    ground arith,
    ground arith,
  )

reserve_at :
    (p : ℕ) (kind : Kind) (v : Value) (m : Memory)
    → (ltb p m.next_pool && not (m.pool_at p).released) ≡ true
    → (check_kind kind
        >> (check_u32 v >>= λ bytes.
            require (not (ltb ((m.pool_at p).capacity_bytes - (m.pool_at p).reserved_bytes) bytes))
            >> ok (Handle.reservation m.next_reservation, reserved p kind bytes m)))
      ≡ reserve_peer_memory (Handle.pool p) kind v m
unfolding reserve_peer_memory
reserve_at p kind v m e = ground arith

reserve_refused :
    (p : ℕ) (kind : Kind) (v : Value) (m : Memory)
    → (ltb p m.next_pool && not (m.pool_at p).released) ≡ false
    → reserve_peer_memory (Handle.pool p) kind v m ≡ err invalid_route
unfolding reserve_peer_memory
reserve_refused p kind v m e = ground arith

-- For every pool and request: releasing a reservation that was just accepted returns true and leaves
-- the pool's reserved and taken bytes as they were before the reservation.
pub release_peer_memory-reserve_peer_memory :
    (p : ℕ) (kind : Kind) (v : Value) (m t : Memory) (r : Handle)
    → reserve_peer_memory (Handle.pool p) kind v m ≡ ok (r, t)
    → IsUndone p m r t
release_peer_memory-reserve_peer_memory p kind v m t r h =
    let P = λ (x : Handle × Memory). IsUndone p m x.0 x.1 in
    elim (Bool-cases (ltb p m.next_pool && not (m.pool_at p).released)) [
      | inl e ↦
          ensured P (reserve_peer_memory (Handle.pool p) kind v m) (r, t)
            (transport (ap (Ensures P) (reserve_at p kind v m e)) (
              bind-Ensures P (check_kind kind) _ λ _. bind-Ensures P (check_u32 v) _ λ bytes.
                require-Ensures P
                  (not (ltb ((m.pool_at p).capacity_bytes - (m.pool_at p).reserved_bytes) bytes)) _
                  λ _. reserved-IsUndone p kind bytes m))
            h
      | inr e ↦ let refused = reserve_refused p kind v m e in absurd (ground arith)
    ]
