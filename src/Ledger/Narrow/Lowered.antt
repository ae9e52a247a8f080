-- ===== src/Ledger/Narrow/Lowered.antt =====
-- About `narrowPeerReservations` of lib/private/peer-ledger.js: it only lowers.
use hyperdht.Prelude.{
  ℕ, ◌≤◌, ◌≡◌, refl, true, Option, none, some, List, [], ◌∷◌, ◌==◌, arith, Bool-cases, inl, inr, ap,
  transport,
}
use hyperdht.Errors.{Result, ok, err, ◌>>◌, Ensures, bind-Ensures, ensured}
use hyperdht.Ledger.Budget.{Row}
use hyperdht.Ledger.Accounts.{Ledger, Store, minus, fits, write}
use hyperdht.Ledger.Memory.{Memory}
use hyperdht.Ledger.Narrow.{
  LedgerRow, MemoryRow, LedgerPlan, MemoryPlan, read_ledger_rows, read_memory_rows, returned,
  check_ledgers, check_covered, check_memory, give_back, narrow_ledger, narrow_ledgers,
  narrow_reservation, narrow_memory, narrow_peer_reservations,
}

abbrev pub IsAtMost : Row → Row → Type 0
IsAtMost a b = (a.cells ≤ b.cells) × (a.bytes ≤ b.bytes) × (a.commands ≤ b.commands)

-- The ledger has spent the same, with an allocation and reservations that are no higher.
abbrev pub IsLower : Ledger → Ledger → Type 0
IsLower l k =
    (k.spent ≡ l.spent)
    × IsAtMost k.allocated l.allocated
    × IsAtMost k.reserved l.reserved
    × (k.released ≡ l.released)

abbrev pub LowersLedgers : Store → Store → Type 0
LowersLedgers s t = (k : ℕ) → IsLower (s.at k) (t.at k)

write-Lowers :
    (before s : Store) (h : ℕ) (l : Ledger)
    → LowersLedgers before s
    → IsLower (before.at h) l
    → LowersLedgers before (write s h l)
write-Lowers before s h l old new k = elim (Bool-cases (k == h)) [
  | inl e ↦
      let same : h ≡ k = ground (arith, e) in
      let is : l ≡ (write s h l).at k = ground (arith, e) in
      transport (ap (IsLower (before.at k)) is)
        (transport (ap (λ j. IsLower (before.at j) l) same) new)
  | inr e ↦
      let is : s.at k ≡ (write s h l).at k = ground (arith, e) in
      transport (ap (IsLower (before.at k)) is) (old k)
]

fitting : (a b : Row) → fits a b ≡ true → IsAtMost a b
fitting a b e = (ground (arith, e), ground (arith, e), ground (arith, e))

-- A parent that gets a row back reserves no more.
give_back-Lowers :
    (before s : Store) (o : Option ℕ) (row : Row)
    → LowersLedgers before s
    → LowersLedgers before (give_back o row s)
give_back-Lowers before s none row old = old
give_back-Lowers before s (some p) row old =
    let l = old p in
    write-Lowers before s p (record (s.at p) { reserved = minus (s.at p).reserved row }) old
      (l.0, l.1, (omega (arith, l.2.0), omega (arith, l.2.1), omega (arith, l.2.2)), l.3)

checks :
    (s : Store) (seen : List ℕ) (plan : LedgerPlan) (rest : List LedgerPlan)
    → check_ledgers s seen (plan ∷ rest) ≡ ok tt
    → (fits plan.row (s.at plan.handle).allocated ≡ true)
      × (check_ledgers s (plan.handle ∷ seen) rest ≡ ok tt)
unfolding check_ledgers
checks s seen plan rest e = (ground (arith, e), ground (arith, e))

narrow_ledgers-Lowers :
    (before s : Store) (seen : List ℕ) (plans : List LedgerPlan)
    → check_ledgers before seen plans ≡ ok tt
    → LowersLedgers before s
    → LowersLedgers before (narrow_ledgers before plans s)
unfolding narrow_ledgers
narrow_ledgers-Lowers before s seen [] checked old = old
narrow_ledgers-Lowers before s seen (plan ∷ rest) checked old =
    let parts = checks before seen plan rest checked in
    let l = old plan.handle in
    narrow_ledgers-Lowers before (narrow_ledger before plan s) (plan.handle ∷ seen) rest parts.1 (
      give_back-Lowers before
        (write s plan.handle (record (s.at plan.handle) { allocated = plan.row }))
        (s.at plan.handle).parent (returned before plan)
        (write-Lowers before s plan.handle (record (s.at plan.handle) { allocated = plan.row }) old
          (l.0, fitting plan.row (before.at plan.handle).allocated parts.0, l.2, l.3)))

unlowered : (s : Store) → LowersLedgers s s
unlowered s k =
    (refl, (omega arith, omega arith, omega arith), (omega arith, omega arith, omega arith), refl)

-- No pool reserves more, and no reservation has a higher capacity, or one of another size where it has
-- been taken.
abbrev pub LowersMemory : Memory → Memory → Type 0
LowersMemory m t =
    ((p : ℕ)
      → ((t.pool_at p).capacity_bytes ≡ (m.pool_at p).capacity_bytes)
        × ((t.pool_at p).reserved_bytes ≤ (m.pool_at p).reserved_bytes))
    × ((r : ℕ)
        → ((t.reservation_at r).capacity_bytes ≤ (m.reservation_at r).capacity_bytes)
          × ((m.reservation_at r).taken ≡ true
              → (t.reservation_at r).capacity_bytes ≡ (m.reservation_at r).capacity_bytes))

checks_memory :
    (m : Memory) (seen : List ℕ) (plan : MemoryPlan) (rest : List MemoryPlan)
    → check_memory m seen (plan ∷ rest) ≡ ok tt
    → (plan.capacity ≤ (m.reservation_at plan.handle).capacity_bytes)
      × ((m.reservation_at plan.handle).taken ≡ true
          → plan.capacity ≡ (m.reservation_at plan.handle).capacity_bytes)
      × (check_memory m (plan.handle ∷ seen) rest ≡ ok tt)
unfolding check_memory
checks_memory m seen plan rest e =
    (ground (arith, e), λ taken. ground (arith, e, taken), ground (arith, e))

narrow_reservation-Lowers :
    (before m : Memory) (plan : MemoryPlan)
    → (plan.capacity ≤ (before.reservation_at plan.handle).capacity_bytes)
    → ((before.reservation_at plan.handle).taken ≡ true
        → plan.capacity ≡ (before.reservation_at plan.handle).capacity_bytes)
    → LowersMemory before m
    → LowersMemory before (narrow_reservation before plan m)
narrow_reservation-Lowers before m plan fit taken old = (
  λ p. let x = old.0 p in ground (arith, x),
  λ r.
      let x = old.1 r in
      elim (Bool-cases (r == plan.handle)) [
        | inl e ↦
            let same : plan.handle ≡ r = ground (arith, e) in
            let is : plan.capacity
                ≡ ((narrow_reservation before plan m).reservation_at r).capacity_bytes =
              ground (arith, e) in
            transport
              (ap
                (λ c.
                  (c ≤ (before.reservation_at r).capacity_bytes)
                  × ((before.reservation_at r).taken ≡ true
                      → c ≡ (before.reservation_at r).capacity_bytes))
                is)
              (transport
                (ap
                  (λ j.
                    (plan.capacity ≤ (before.reservation_at j).capacity_bytes)
                    × ((before.reservation_at j).taken ≡ true
                        → plan.capacity ≡ (before.reservation_at j).capacity_bytes))
                  same)
                (fit, taken))
        | inr e ↦ (ground (arith, e, x.0), λ was. ground (arith, e, x.1 was))
      ],
)

narrow_memory-Lowers :
    (before m : Memory) (seen : List ℕ) (plans : List MemoryPlan)
    → check_memory before seen plans ≡ ok tt
    → LowersMemory before m
    → LowersMemory before (narrow_memory before plans m)
unfolding narrow_memory
narrow_memory-Lowers before m seen [] checked old = old
narrow_memory-Lowers before m seen (plan ∷ rest) checked old =
    let parts = checks_memory before seen plan rest checked in
    narrow_memory-Lowers before (narrow_reservation before plan m) (plan.handle ∷ seen) rest parts.2
      (narrow_reservation-Lowers before m plan parts.0 parts.1 old)

pub checked-Ensures :
    {A : Type 0} (P : A → Type 0) (x : Result (Unit {0})) (next : Result A)
    → (x ≡ ok tt → Ensures P next)
    → Ensures P (x >> next)
checked-Ensures P (ok tt) next h = h refl
checked-Ensures P (err e) next h = tt

-- For every store and memory: after a narrowing that is accepted, every ledger has spent what it had,
-- is live if it was, and has no higher allocation and no more reserved; every pool has its capacity
-- and no more reserved; and no reservation has a higher capacity, nor another one if it was taken.
pub narrow_peer_reservations-Lowers :
    (ledgers : List LedgerRow) (memory : List MemoryRow) (s t : Store) (m n : Memory)
    → narrow_peer_reservations ledgers memory s m ≡ ok (t, n)
    → LowersLedgers s t × LowersMemory m n
unfolding narrow_peer_reservations
narrow_peer_reservations-Lowers ledgers memory s t m n =
    let P = λ (r : Store × Memory). LowersLedgers s r.0 × LowersMemory m r.1 in
    ensured P (narrow_peer_reservations ledgers memory s m) (t, n)
      (bind-Ensures P (read_ledger_rows ledgers) _ λ ledger_plans.
        bind-Ensures P (read_memory_rows memory) _ λ memory_plans.
          checked-Ensures P (check_ledgers s [] ledger_plans) _ λ first.
            checked-Ensures P (check_covered s ledger_plans ledger_plans) _ λ _.
              checked-Ensures P (check_memory m [] memory_plans) _ λ third. (
                narrow_ledgers-Lowers s s [] ledger_plans first (unlowered s),
                narrow_memory-Lowers m m [] memory_plans third
                    (λ p. (refl, omega arith), λ r. (omega arith, λ _. refl)),
              ))
