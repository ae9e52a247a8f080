-- ===== src/Ledger/Narrow/Asked.antt =====
-- About `narrowPeerReservations` of lib/private/peer-ledger.js: it publishes every row it was given.
use hyperdht.Prelude.{
  ℕ, ◌≡◌, refl, true, false, Option, none, some, List, [], ◌∷◌, ◌==◌, arith, Bool-cases, inl, inr,
  ap, transport, ◌∙◌,
}
use hyperdht.Errors.{Result, ok, err, ◌>>=◌, Ensures, ensured}
use hyperdht.Ledger.Budget.{Row}
use hyperdht.Ledger.Accounts.{Store, write}
use hyperdht.Ledger.Memory.{Memory}
use hyperdht.Ledger.Narrow.{
  LedgerRow, MemoryRow, LedgerPlan, MemoryPlan, read_ledger_rows, read_memory_rows, is_seen,
  returned, check_ledgers, check_covered, check_memory, give_back, narrow_ledger, narrow_ledgers,
  narrow_reservation, narrow_memory, narrow_peer_reservations,
}
use hyperdht.Ledger.Narrow.Lowered.{checked-Ensures}

-- Every plan of the list has been carried out.
abbrev pub HasRows : Store → List LedgerPlan → Type 0
HasRows t [] = Unit
HasRows t (plan ∷ rest) = ((t.at plan.handle).allocated ≡ plan.row) × HasRows t rest

abbrev pub HasCapacities : Memory → List MemoryPlan → Type 0
HasCapacities t [] = Unit
HasCapacities t (plan ∷ rest) =
    ((t.reservation_at plan.handle).capacity_bytes ≡ plan.capacity) × HasCapacities t rest

give_back-allocated :
    (o : Option ℕ) (row : Row) (s : Store) (k : ℕ)
    → ((give_back o row s).at k).allocated ≡ (s.at k).allocated
give_back-allocated none row s k = refl
give_back-allocated (some p) row s k = elim (Bool-cases (k == p)) [
  | inl e ↦ let same : k ≡ p = ground (arith, e) in ground (arith, e, same)
  | inr e ↦ ground (arith, e)
]

narrow_ledger-other :
    (before s : Store) (plan : LedgerPlan) (k : ℕ)
    → (plan.handle == k) ≡ false
    → ((narrow_ledger before plan s).at k).allocated ≡ (s.at k).allocated
narrow_ledger-other before s plan k e =
    let s1 = write s plan.handle (record (s.at plan.handle) { allocated = plan.row }) in
    give_back-allocated (s.at plan.handle).parent (returned before plan) s1 k ∙ ground (arith, e)

narrow_ledger-here :
    (before s : Store) (plan : LedgerPlan)
    → ((narrow_ledger before plan s).at plan.handle).allocated ≡ plan.row
narrow_ledger-here before s plan =
    let s1 = write s plan.handle (record (s.at plan.handle) { allocated = plan.row }) in
    give_back-allocated (s.at plan.handle).parent (returned before plan) s1 plan.handle
    ∙ ground arith

unseen :
    (s : Store) (seen : List ℕ) (plan : LedgerPlan) (rest : List LedgerPlan)
    → check_ledgers s seen (plan ∷ rest) ≡ ok tt
    → (is_seen plan.handle seen ≡ false) × (check_ledgers s (plan.handle ∷ seen) rest ≡ ok tt)
unfolding check_ledgers
unseen s seen plan rest e = (ground (arith, e), ground (arith, e))

-- A ledger that was seen is not changed any more.
seen_stays :
    (before s : Store) (seen : List ℕ) (plans : List LedgerPlan) (k : ℕ)
    → check_ledgers before seen plans ≡ ok tt
    → is_seen k seen ≡ true
    → ((narrow_ledgers before plans s).at k).allocated ≡ (s.at k).allocated
unfolding narrow_ledgers
seen_stays before s seen [] k checked e = refl
seen_stays before s seen (plan ∷ rest) k checked e =
    let parts = unseen before seen plan rest checked in
    let apart : (plan.handle == k) ≡ false = elim (Bool-cases (plan.handle == k)) [
      | inl same ↦
          let is : k ≡ plan.handle = ground (arith, same) in
          absurd (ground (arith, parts.0, transport (ap (λ j. is_seen j seen ≡ true) is) e))
      | inr other ↦ other
    ] in
    seen_stays before (narrow_ledger before plan s) (plan.handle ∷ seen) rest k parts.1
      (ground (arith, e))
    ∙ narrow_ledger-other before s plan k apart

narrow_ledgers-HasRows :
    (before s : Store) (seen : List ℕ) (plans : List LedgerPlan)
    → check_ledgers before seen plans ≡ ok tt
    → HasRows (narrow_ledgers before plans s) plans
unfolding narrow_ledgers
narrow_ledgers-HasRows before s seen [] checked = tt
narrow_ledgers-HasRows before s seen (plan ∷ rest) checked =
    let parts = unseen before seen plan rest checked in
    let next = narrow_ledger before plan s in
    (
      seen_stays before next (plan.handle ∷ seen) rest plan.handle parts.1 (ground arith)
          ∙ narrow_ledger-here before s plan,
      narrow_ledgers-HasRows before next (plan.handle ∷ seen) rest parts.1,
    )

unseen_memory :
    (m : Memory) (seen : List ℕ) (plan : MemoryPlan) (rest : List MemoryPlan)
    → check_memory m seen (plan ∷ rest) ≡ ok tt
    → (is_seen plan.handle seen ≡ false) × (check_memory m (plan.handle ∷ seen) rest ≡ ok tt)
unfolding check_memory
unseen_memory m seen plan rest e = (ground (arith, e), ground (arith, e))

capacity_stays :
    (before m : Memory) (seen : List ℕ) (plans : List MemoryPlan) (k : ℕ)
    → check_memory before seen plans ≡ ok tt
    → is_seen k seen ≡ true
    → ((narrow_memory before plans m).reservation_at k).capacity_bytes
      ≡ (m.reservation_at k).capacity_bytes
unfolding narrow_memory
capacity_stays before m seen [] k checked e = refl
capacity_stays before m seen (plan ∷ rest) k checked e =
    let parts = unseen_memory before seen plan rest checked in
    let apart : (k == plan.handle) ≡ false = elim (Bool-cases (k == plan.handle)) [
      | inl same ↦
          let is : k ≡ plan.handle = ground (arith, same) in
          absurd (ground (arith, parts.0, transport (ap (λ j. is_seen j seen ≡ true) is) e))
      | inr other ↦ other
    ] in
    capacity_stays before (narrow_reservation before plan m) (plan.handle ∷ seen) rest k parts.1
      (ground (arith, e))
    ∙ ground (arith, apart)

narrow_memory-HasCapacities :
    (before m : Memory) (seen : List ℕ) (plans : List MemoryPlan)
    → check_memory before seen plans ≡ ok tt
    → HasCapacities (narrow_memory before plans m) plans
unfolding narrow_memory
narrow_memory-HasCapacities before m seen [] checked = tt
narrow_memory-HasCapacities before m seen (plan ∷ rest) checked =
    let parts = unseen_memory before seen plan rest checked in
    let next = narrow_reservation before plan m in
    (
      capacity_stays before next (plan.handle ∷ seen) rest plan.handle parts.1 (ground arith)
          ∙ ground arith,
      narrow_memory-HasCapacities before next (plan.handle ∷ seen) rest parts.1,
    )

-- What the options ask of the state after the call.
abbrev pub IsDone : List LedgerRow → List MemoryRow → Store × Memory → Type 0
IsDone ledgers memory r =
    (plans : List LedgerPlan) × (capacities : List MemoryPlan) × (read_ledger_rows ledgers
      ≡ ok plans)
    × (read_memory_rows memory ≡ ok capacities)
    × HasRows r.0 plans
    × HasCapacities r.1 capacities

bind-Ensures_known :
    {A B : Type 0} (P : B → Type 0) (x : Result A) (f : A → Result B)
    → ((a : A) → x ≡ ok a → Ensures P (f a))
    → Ensures P (x >>= f)
bind-Ensures_known P (ok a) f k = k a refl
bind-Ensures_known P (err e) f k = tt

-- For every store and memory: a narrowing that is accepted leaves each ledger that the options name
-- with exactly the row that they give, and each reservation with exactly the capacity.
pub narrow_peer_reservations-IsDone :
    (ledgers : List LedgerRow) (memory : List MemoryRow) (s t : Store) (m n : Memory)
    → narrow_peer_reservations ledgers memory s m ≡ ok (t, n)
    → IsDone ledgers memory (t, n)
unfolding narrow_peer_reservations
narrow_peer_reservations-IsDone ledgers memory s t m n =
    let P = IsDone ledgers memory in
    ensured P (narrow_peer_reservations ledgers memory s m) (t, n)
      (bind-Ensures_known P (read_ledger_rows ledgers) _ λ plans given.
        bind-Ensures_known P (read_memory_rows memory) _ λ capacities asked.
          checked-Ensures P (check_ledgers s [] plans) _ λ first.
            checked-Ensures P (check_covered s plans plans) _ λ _.
              checked-Ensures P (check_memory m [] capacities) _ λ third. (
                plans,
                capacities,
                given,
                asked,
                narrow_ledgers-HasRows s s [] plans first,
                narrow_memory-HasCapacities m m [] capacities third,
              ))
