-- ===== src/Ledger/Memory/Tests.antt =====
-- A memory pool with one reservation, taken and released.
use hyperdht.Prelude.{◌≡◌, refl, none, some, arith}
use hyperdht.Prelude.Int.{pos}
use hyperdht.Errors.{ok}
use hyperdht.Values.{integer}
use hyperdht.Ledger.Memory.{
  Memory, Handle, Kind, add_pool, fresh_pool, fresh_reservation, add_reservation, write_pool,
  reserve_from, create_peer_memory_pool, reserve_peer_memory, take_peer_memory, take_from,
  taken_with, write_reservation,
}
use hyperdht.Ledger.Memory.Bounds.{IsWithin, IsUndone, release_peer_memory-reserve_peer_memory}

abbrev blank : Memory
blank = record {
  next_pool = 0;
  pool_at = λ p. fresh_pool 0 none;
  next_reservation = 0;
  reservation_at = λ r. fresh_reservation 0 Kind.unnamed 0;
}

abbrev pooled : Memory
pooled = add_pool blank (fresh_pool 100 none)

pooled_lem : create_peer_memory_pool (integer (pos 100)) blank ≡ ok (Handle.pool 0, pooled)
unfolding create_peer_memory_pool
pooled_lem = refl

pooled-IsWithin : IsWithin pooled
pooled-IsWithin p below = ground arith

abbrev booked : Memory
booked =
    add_reservation (write_pool pooled 0 (reserve_from (pooled.pool_at 0) 60 0))
      (fresh_reservation 0 (Kind.named 1) 60)

booked_lem :
    reserve_peer_memory (Handle.pool 0) (Kind.named 1) (integer (pos 60)) pooled
    ≡ ok (Handle.reservation 0, booked)
unfolding reserve_peer_memory
booked_lem = refl

release_peer_memory-reserve_peer_memory_example : IsUndone 0 pooled (Handle.reservation 0) booked
release_peer_memory-reserve_peer_memory_example =
    release_peer_memory-reserve_peer_memory 0 (Kind.named 1) (integer (pos 60)) pooled booked
      (Handle.reservation 0) booked_lem

booked-IsWithin : IsWithin booked
booked-IsWithin p below = ground arith

abbrev held : Memory
held =
    add_pool
      (write_reservation (write_pool booked 0 (take_from (booked.pool_at 0) 60)) 0
        (taken_with (booked.reservation_at 0) 1))
      (fresh_pool 60 (some 0))

held_lem : take_peer_memory (Handle.reservation 0) booked ≡ ok (Handle.pool 1, held)
unfolding take_peer_memory
held_lem = refl
