-- ===== src/Ledger/Budget/Laws.antt =====
-- About the sizes of a peer route in lib/private/peer-ledger.js.
use hyperdht.Prelude.{
  ℕ, ◌+◌, ◌-◌, ◌*◌, ◌≤◌, ◌≡◌, Bool, true, false, List, [], ◌∷◌, arith, ◌==◌, if◌then◌else◌, length,
  All, Bool-cases, inl, inr,
}
use hyperdht.Prelude.Int.{pos}
use hyperdht.Errors.{ok, Ensures, bind-Ensures, ensured}
use hyperdht.Values.{integer, boolean}
use hyperdht.Ledger.{properties, Exact, exact, max_u32, cell_size, check_u32}
use hyperdht.Ledger.Budget.{
  OwnedOptions, compute_peer_semantic_owned_bytes, owned_bytes, require, is_purpose, Rows, Row,
  RouteBudget, BudgetOptions, compute_peer_route_budget, packets, route_budget, sum_cells,
  add_applications, no_sums,
}

-- The options of `computePeerSemanticOwnedBytes` for a purpose, a side and a number of streams.
abbrev pub owned_options : ℕ → Bool → ℕ → Exact OwnedOptions
owned_options p initiator m = exact (record {
  purpose = integer (pos p);
  is_initiator = boolean initiator;
  max_streams = integer (pos m);
})

owned_bytes_mono :
    (p : ℕ) (initiator : Bool) (m n : ℕ)
    → m ≤ n
    → owned_bytes p initiator m ≤ owned_bytes p initiator n
unfolding owned_bytes
owned_bytes_mono p true m n m≤n = elim (Bool-cases (p == 1)) [
  | inl h ↦ ground arith
  | inr h ↦ ground arith
]
owned_bytes_mono p false m n m≤n = elim (Bool-cases (p == 1)) [
  | inl h ↦ ground arith
  | inr h ↦ ground arith
]

-- For every purpose and side: if the sizes are accepted for n lifetime streams, they are accepted for
-- every smaller number m ≥ 1 of streams, and are not larger there.
pub compute_peer_semantic_owned_bytes_mono :
    (p : ℕ) (initiator : Bool) (m n bytes : ℕ)
    → 1 ≤ m
    → m ≤ n
    → compute_peer_semantic_owned_bytes (owned_options p initiator n) ≡ ok bytes
    → (compute_peer_semantic_owned_bytes (owned_options p initiator m)
        ≡ ok (owned_bytes p initiator m))
      × (owned_bytes p initiator m ≤ bytes)
unfolding compute_peer_semantic_owned_bytes
compute_peer_semantic_owned_bytes_mono p initiator m n bytes h1 m≤n h =
    ground (arith, owned_bytes_mono p initiator m n m≤n)

infix 4 ◌⊑◌
-- Every amount of the first row is at most the one of the second.
abbrev pub ◌⊑◌ : Row → Row → Type 0
a ⊑ b = (a.cells ≤ b.cells) × (a.bytes ≤ b.bytes) × (a.commands ≤ b.commands)

-- The purpose route's rows fit into each adjacency but for the commands of its two ends, which fit
-- into the first adjacency forward and into the last one in reverse.
abbrev pub Covered : Rows → List Rows → Type 0
Covered purpose (a ∷ b ∷ c ∷ []) =
    (purpose.forward ⊑ a.forward)
    × (purpose.reverse ⊑ c.reverse)
    × All
        (λ r. (purpose.forward.cells ≤ r.forward.cells) × (purpose.reverse.cells ≤ r.reverse.cells))
        (a ∷ b ∷ c ∷ [])
Covered purpose _ = ⊥

abbrev pub IsBudget : RouteBudget → Type 0
IsBudget b =
    Covered b.purpose b.adjacencies
    × (b.total_cells ≡ sum_cells b.adjacencies + sum_cells b.direct_discovery)
    × (b.total_bytes ≡ b.total_cells * cell_size)
    × (b.total_cells ≤ max_u32)

route_budget-IsBudget : (p m n : ℕ) → Ensures IsBudget (route_budget p m n)
unfolding route_budget
route_budget-IsBudget p m n = ground arith

-- For every budget that `computePeerRouteBudget` returns: the purpose rows fit into the adjacencies,
-- the total of the cells is the sum over the adjacencies and the direct discovery and at most
-- 2 ^ 32 - 1, and the bytes are 1200 times the cells.
pub compute_peer_route_budget-IsBudget :
    (options : Exact BudgetOptions) (b : RouteBudget)
    → compute_peer_route_budget options ≡ ok b
    → IsBudget b
unfolding compute_peer_route_budget
compute_peer_route_budget-IsBudget given b = ensured IsBudget (compute_peer_route_budget given) b (
    bind-Ensures IsBudget (properties given) _ λ options.
      bind-Ensures IsBudget (check_u32 options.purpose) _ λ p.
        bind-Ensures IsBudget (check_u32 options.max_streams) _ λ m.
          bind-Ensures IsBudget (require (is_purpose p m)) _ λ _.
            bind-Ensures IsBudget
              (require (length options.applications == (if p == 3 then m - 1 else m))) _
              λ _.
                bind-Ensures IsBudget (add_applications no_sums options.applications) _
                  λ sums. route_budget-IsBudget p m (packets p m sums))
