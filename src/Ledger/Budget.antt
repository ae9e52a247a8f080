-- ===== src/Ledger/Budget.antt =====
-- lib/private/peer-ledger.js: the sizes that a peer route reserves, as bytes that it owns, bytes
-- that it queues, and the rows of cells, bytes and commands of each adjacency.
pub mod Laws
use hyperdht.Prelude.{
  ℕ, zero, suc, ◌+◌, ◌-◌, ◌*◌, ◌≤◌, ◌≡◌, Bool, true, false, ◌&&◌, ◌||◌, not, List, [], ◌∷◌, arith,
  ltb, ◌==◌, if◌then◌else◌, length, min,
}
use hyperdht.Errors.{Result, ok, err, invalid_route, ◌>>=◌, ◌>>◌}
use hyperdht.Values.{Value}
use hyperdht.Ledger.{
  Exact, inexact, exact, properties, check_u32, check_u64, check_bool, max_u32, cell_size,
}

abbrev pub require : Bool → Result (Unit {0})
require true = ok tt
require false = err invalid_route

pub record OwnedOptions : Type 0 where
  pub purpose : Value
  pub is_initiator : Value
  pub max_streams : Value

-- `PEER_RECORD_LIMITS[p].raw`
abbrev pub raw_record_limit : ℕ → ℕ
raw_record_limit p = if p == 1 then 16777218 else 65556

-- Twice a record and the length prefix.
abbrev pub record_slot_bytes : ℕ → ℕ
record_slot_bytes p = 2 * raw_record_limit p + 3

-- The sum of `computePeerSemanticOwnedBytes` for purpose p, m lifetime streams.
unfoldable pub owned_bytes : ℕ → Bool → ℕ → ℕ
owned_bytes p initiator m =
    if p == 1
    then 9620 * m
      + 8192 * m
      + record_slot_bytes p * (if initiator then m else 0)
      + (if initiator then 0 else 16777280)
    else if p == 2
    then 2049 * m
      + 528 * (if initiator then m else 0)
      + record_slot_bytes p * (if initiator then m else 0)
    else 726
      + 1921 * (m - 1)
      + 528 * (if initiator then m - 1 else 0)
      + record_slot_bytes p * (if initiator then m - 1 else 0)

abbrev pub is_purpose : ℕ → ℕ → Bool
is_purpose p m = not (ltb p 1 || (ltb 3 p || ltb m 1))

-- `computePeerSemanticOwnedBytes(options)`
unfoldable pub compute_peer_semantic_owned_bytes : Exact OwnedOptions → Result ℕ
unfolding owned_bytes
compute_peer_semantic_owned_bytes given = do
  options ← properties given
  p ← check_u32 options.purpose
  initiator ← check_bool options.is_initiator
  m ← check_u32 options.max_streams
  require (is_purpose p m)
  require (not (ltb max_u32 (owned_bytes p initiator m)))
  ok (owned_bytes p initiator m)

pub record QueuedOptions : Type 0 where
  pub max_streams : Value
  pub receive_bytes : Value
  pub semantic_owned_bytes : Value

-- `computePeerQueuedBytes(options)`
unfoldable pub compute_peer_queued_bytes : Exact QueuedOptions → Result ℕ
compute_peer_queued_bytes given = do
  options ← properties given
  m ← check_u32 options.max_streams
  r ← check_u32 options.receive_bytes
  s ← check_u32 options.semantic_owned_bytes
  require (not (ltb max_u32 (157200 + 1073 * m + r + s)))
  ok (157200 + 1073 * m + r + s)

pub record Application : Type 0 where
  pub forward_frames : Value
  pub reverse_frames : Value
  pub forward_bytes : Value
  pub reverse_bytes : Value
  pub forward_window : Value
  pub reverse_window : Value

-- The sums over the applications: frames and window grants each way.
pub record Sums : Type 0 where
  pub frames_forward : ℕ
  pub frames_reverse : ℕ
  pub grants_forward : ℕ
  pub grants_reverse : ℕ
  pub applications : ℕ

abbrev pub no_sums : Sums
no_sums = record {
  frames_forward = 0;
  frames_reverse = 0;
  grants_forward = 0;
  grants_reverse = 0;
  applications = 0;
}

abbrev within : ℕ → ℕ → ℕ → Bool
within low high n = not (ltb n low || ltb high n)

-- One turn of the loop over `applications`.
unfoldable pub add_application : Sums → Exact Application → Result Sums
add_application sums given = do
  app ← properties given
  qf ← check_u32 app.forward_frames
  qr ← check_u32 app.reverse_frames
  bf ← check_u64 app.forward_bytes
  br ← check_u64 app.reverse_bytes
  wf ← check_u32 app.forward_window
  wr ← check_u32 app.reverse_window
  require (not (ltb qf 1 || ltb qr 1))
  require (within 59 (977 * qf) bf)
  require (within 59 (977 * qr) br)
  require (within 1 (min 24 qf) wf)
  require (within 1 (min 24 qr) wr)
  ok (record {
    frames_forward = sums.frames_forward + qf;
    frames_reverse = sums.frames_reverse + qr;
    grants_forward = sums.grants_forward + (1 + (qf - wf));
    grants_reverse = sums.grants_reverse + (1 + (qr - wr));
    applications = sums.applications + 1;
  })

unfoldable pub add_applications : Sums → List (Exact Application) → Result Sums
add_applications sums [] = ok sums
add_applications sums (a ∷ rest) = add_application sums a >>= λ s. add_applications s rest

pub record Row : Type 0 where
  pub cells : ℕ
  pub bytes : ℕ
  pub commands : ℕ

pub record Rows : Type 0 where
  pub forward : Row
  pub reverse : Row

pub record RouteBudget : Type 0 where
  pub reliable_packets : ℕ
  pub adjacencies : List Rows
  pub direct_discovery : List Rows
  pub purpose : Rows
  pub total_cells : ℕ
  pub total_bytes : ℕ

abbrev pub row : ℕ → ℕ → Row
row cells commands = record { cells = cells; bytes = cells * cell_size; commands = commands }

-- One setup attempt: its own cells each way and the commands.
abbrev pub adjacency : ℕ → ℕ → ℕ → ℕ → ℕ → Rows
adjacency common f r f_commands r_commands = record {
  forward = row (f + common) f_commands;
  reverse = row (r + common) r_commands;
}

abbrev fits_u32 : Rows → Bool
fits_u32 a =
    not (ltb max_u32 a.forward.cells || ltb max_u32 a.reverse.cells)
    && not (ltb max_u32 a.forward.commands || ltb max_u32 a.reverse.commands)

abbrev all_fit : List Rows → Result (Unit {0})
all_fit [] = ok tt
all_fit (a ∷ rest) = require (fits_u32 a) >> all_fit rest

abbrev pub sum_cells : List Rows → ℕ
sum_cells [] = 0
sum_cells (a ∷ rest) = a.forward.cells + a.reverse.cells + sum_cells rest

abbrev pub direct_row : Rows
direct_row = record {
  forward = record { cells = 24; bytes = 28800; commands = 0 };
  reverse = record { cells = 24; bytes = 28800; commands = 1 };
}

-- `Pf` and `Pr`: protocol packets of the purpose each way, and the terminal's allocations.
abbrev protocol_forward : ℕ → ℕ → ℕ
protocol_forward p m = if p == 1 then 13 * m else if p == 2 then 5 * m else 3 + 4 * (m - 1)

abbrev protocol_reverse : ℕ → ℕ → ℕ
protocol_reverse p m = if p == 1 then 13 * m else if p == 2 then 5 * m else 1 + 5 * (m - 1)

abbrev terminal_commands : ℕ → ℕ → ℕ
terminal_commands p m = if p == 1 then 3 * m else if p == 2 then 2 * m else 2

abbrev entry_commands : ℕ → ℕ → ℕ
entry_commands p m = if p == 3 then 2 * (m - 1) else 0

-- `N`, the reliable packets both ways.
unfoldable pub packets : ℕ → ℕ → Sums → ℕ
packets p m sums =
    protocol_forward p m
    + sums.frames_forward
    + sums.grants_reverse
    + sums.applications
    + (protocol_reverse p m + sums.frames_reverse + sums.grants_forward + sums.applications)

unfoldable pub setup_attempts : ℕ → ℕ → ℕ → List Rows
setup_attempts p m n =
    let common = 8 * n + 16 * m + 34 in
    adjacency common 40 56 (1 + entry_commands p m + m + 2) (2 + m + 2)
    ∷ adjacency common 24 40 (1 + m + 2) (2 + m + 2)
    ∷ adjacency common 8 16 (1 + m + 2) (1 + terminal_commands p m + 1 + m + 2)
    ∷ []

unfoldable pub purpose_rows : ℕ → ℕ → ℕ → Rows
purpose_rows p m n =
    let cells = 8 * n + 16 * m + 24 in
    record {
      forward = row cells (entry_commands p m + m + 1);
      reverse = row cells (terminal_commands p m + 1 + m + 1);
    }

pub record BudgetOptions : Type 0 where
  pub purpose : Value
  pub max_streams : Value
  pub applications : List (Exact Application)

-- The rows for p, m and n reliable packets, once their sizes have been checked.
unfoldable pub route_budget : ℕ → ℕ → ℕ → Result RouteBudget
unfolding setup_attempts purpose_rows
route_budget p m n = do
  all_fit (setup_attempts p m n)
  require (not (ltb max_u32 (sum_cells (setup_attempts p m n) + 144)))
  require (not (ltb max_u32 (purpose_rows p m n).forward.cells))
  ok (record {
    reliable_packets = n;
    adjacencies = setup_attempts p m n;
    direct_discovery = direct_row ∷ direct_row ∷ direct_row ∷ [];
    purpose = purpose_rows p m n;
    total_cells = sum_cells (setup_attempts p m n) + 144;
    total_bytes = (sum_cells (setup_attempts p m n) + 144) * cell_size;
  })

-- `computePeerRouteBudget(options)`. That `applications` is an array with own elements is part of
-- the argument's type.
unfoldable pub compute_peer_route_budget : Exact BudgetOptions → Result RouteBudget
unfolding packets route_budget
compute_peer_route_budget given = do
  options ← properties given
  p ← check_u32 options.purpose
  m ← check_u32 options.max_streams
  require (is_purpose p m)
  require (length options.applications == (if p == 3 then m - 1 else m))
  sums ← add_applications no_sums options.applications
  route_budget p m (packets p m sums)
