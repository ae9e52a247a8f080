-- ===== src/Ledger/Tests.antt =====
-- The ledger on concrete requests.
use hyperdht.Prelude.{◌≡◌, refl, true, [], ◌∷◌}
use hyperdht.Prelude.Int.{pos}
use hyperdht.Errors.{ok}
use hyperdht.Values.{integer, bigint}
use hyperdht.Ledger.{Exact, exact}
use hyperdht.Ledger.Budget.{
  BudgetOptions, RouteBudget, row, adjacency, direct_row, add_application, add_applications,
  compute_peer_route_budget, compute_peer_semantic_owned_bytes, owned_bytes,
}
use hyperdht.Ledger.Budget.Laws.{owned_options, IsBudget, compute_peer_route_budget-IsBudget}

five : compute_peer_semantic_owned_bytes (owned_options 2 true 5) ≡ ok 668460
unfolding compute_peer_semantic_owned_bytes owned_bytes
five = refl

abbrev one_stream : Exact BudgetOptions
one_stream = exact (record {
  purpose = integer (pos 2);
  max_streams = integer (pos 1);
  applications =
      exact (record {
        forward_frames = integer (pos 4);
        reverse_frames = integer (pos 4);
        forward_bytes = bigint (pos 100);
        reverse_bytes = bigint (pos 100);
        forward_window = integer (pos 2);
        reverse_window = integer (pos 2);
      })
      ∷ [];
})

-- 26 packets, so that every adjacency has 258 cells besides its own.
abbrev one_budget : RouteBudget
one_budget = record {
  reliable_packets = 26;
  adjacencies = adjacency 258 40 56 4 5 ∷ adjacency 258 24 40 4 5 ∷ adjacency 258 8 16 4 7 ∷ [];
  direct_discovery = direct_row ∷ direct_row ∷ direct_row ∷ [];
  purpose = record { forward = row 248 2; reverse = row 248 5 };
  total_cells = 1876;
  total_bytes = 2251200;
}

one_budget_lem : compute_peer_route_budget one_stream ≡ ok one_budget
unfolding compute_peer_route_budget add_applications add_application
one_budget_lem = refl

compute_peer_route_budget-IsBudget_example : IsBudget one_budget
compute_peer_route_budget-IsBudget_example =
    compute_peer_route_budget-IsBudget one_stream one_budget one_budget_lem
