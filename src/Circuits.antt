-- ===== src/Circuits.antt =====
-- lib/private/private-peer-controller.js: the class `CircuitCreditPool`, which shares the send
-- credit of one circuit among the streams that it carries. An owner is a number, and a leg is found
-- under its owner, since a leg leaves the queue before it leaves the map. `grants` and `idled` log
-- the calls of `onGrant` and `onIdle`. What `onGrant` does to the pool while it is called is a list
-- of `Nested` calls, which may depend on all grants so far; a promise that it makes goes on later.
pub mod Calls
pub mod Queue
pub mod Credit
pub mod Rounds
pub mod Sharing
pub mod Settled
mod Tests
use hyperdht.Prelude.{
  ℕ, zero, suc, ◌+◌, ◌-◌, ◌*◌, ◌/◌, ◌≤◌, ◌≡◌, Bool, true, false, not, ◌&&◌, ◌||◌, Option, none,
  some, List, [], ◌∷◌, ◌++◌, ltb, leb, ◌==◌, if◌then◌else◌, length, min, max,
}
use hyperdht.Prelude.Assoc.{lookup, has, delete, assign, sum_of}
use hyperdht.Errors.{Error, privacy_unavailable, invalid_route}

-- `CIRCUIT_WINDOW`
abbrev pub circuit_window : ℕ
circuit_window = 2048

-- `MAX_ROUTE_STREAMS`
abbrev pub max_route_streams : ℕ
max_route_streams = 64

-- `DEMAND_PROGRESS`
abbrev pub demand_progress : ℕ
demand_progress = 32

-- `CREDIT_IDLE_MS`
abbrev pub credit_idle_ms : ℕ
credit_idle_ms = 50

-- `CREDIT_GRANT_IDLE_MS`
abbrev pub credit_grant_idle_ms : ℕ
credit_grant_idle_ms = 6000

-- `idle_timer` is the delay of the timer that runs.
pub record Leg : Type 0 where
  pub granted : ℕ
  pub wanted : ℕ
  pub demand_open : Bool
  pub last_demand_at : ℕ
  pub progress : ℕ
  pub last_activity : ℕ
  pub idle_timer : Option ℕ

pub record Pool : Type 0 where
  pub available : ℕ
  pub in_flight : ℕ
  pub legs : List (ℕ × Leg)
  pub pending : List ℕ
  pub closed : Bool
  pub grants : List (ℕ × ℕ)
  pub idled : List ℕ

-- The pool after a call, and what the call throws. A call that finds an argument wrong has changed
-- nothing; where `onGrant` throws, the pool stays as it was left.
pub record Outcome : Type 0 where
  pub pool : Pool
  pub thrown : Option Error

abbrev pub done : Pool → Outcome
done p = record { pool = p; thrown = none }

abbrev pub fails : Error → Pool → Outcome
fails e p = record { pool = p; thrown = some e }

unfoldable pub construct : Pool
construct = record {
  available = circuit_window;
  in_flight = 0;
  legs = [];
  pending = [];
  closed = false;
  grants = [];
  idled = [];
}

abbrev pub new_leg : Leg
new_leg = record {
  granted = 0;
  wanted = 0;
  demand_open = false;
  last_demand_at = 0;
  progress = demand_progress;
  last_activity = 0;
  idle_timer = none;
}

-- The leg of an owner, or what a call does without one.
abbrev pub with_leg {ℓ} : {B : Type ℓ} → Option Leg → B → (Leg → B) → B
with_leg none missing next = missing
with_leg (some leg) missing next = next leg

abbrev pub write_leg : ℕ → Leg → Pool → Pool
write_leg owner leg p = record p { legs = assign owner leg p.legs }

-- `add(owner)`
unfoldable pub add : ℕ → Pool → Outcome
add owner p =
    if p.closed || (leb max_route_streams (length p.legs) || has owner p.legs)
    then fails privacy_unavailable p
    else done (record p { legs = p.legs ++ (owner, new_leg) ∷ [] })

-- The filter of `cancel`.
abbrev pub without : ℕ → List ℕ → List ℕ
without owner [] = []
without owner (o ∷ rest) = if o == owner then without owner rest else o ∷ without owner rest

-- `cancel(owner)`
unfoldable pub cancel : ℕ → Pool → Pool
cancel owner p = with_leg (lookup owner p.legs) p λ leg. record p {
  legs = assign owner (record leg { wanted = 0; demand_open = false }) p.legs;
  pending = without owner p.pending;
}

-- `_clearIdle(leg)` where nothing is granted any more.
abbrev pub clear_idle : ℕ → Option ℕ → Option ℕ
clear_idle granted timer = if granted == 0 then none else timer

-- `release(owner, amount)` up to the call of `_distribute`
abbrev pub is_releasable : ℕ → Leg → Pool → Bool
is_releasable amount leg p = not (p.closed || (ltb amount 1 || ltb leg.granted amount))

abbrev pub give_back : ℕ → ℕ → Leg → Pool → Pool
give_back owner amount leg p = record p {
  legs =
      assign owner
        (record leg {
          granted = leg.granted - amount;
          idle_timer = clear_idle (leg.granted - amount) leg.idle_timer;
        })
        p.legs;
  available = p.available + amount;
}

-- `remove(owner)` up to the call of `_distribute`
abbrev pub leave : ℕ → Leg → Pool → Pool
leave owner leg p = record p {
  pending = without owner p.pending;
  legs = delete owner p.legs;
  available = p.available + leg.granted;
}

-- `touch(owner)`
unfoldable pub touch : ℕ → ℕ → Pool → Pool
touch now owner p = with_leg (lookup owner p.legs) p λ leg.
    if not p.closed && ltb 0 leg.granted
    then write_leg owner (record leg { last_activity = now }) p
    else p

-- `destroy()`
unfoldable pub destroy : Pool → Pool
destroy p = record p { closed = true; pending = []; legs = []; available = 0; in_flight = 0 }

-- `sent(owner, amount)`
unfoldable pub sent : ℕ → ℕ → ℕ → Pool → Outcome
sent now owner amount p = with_leg (lookup owner p.legs) (fails invalid_route p) λ leg.
    if is_releasable amount leg p
    then done (record p {
      legs =
          assign owner
            (record leg {
              granted = leg.granted - amount;
              progress = min (2 * demand_progress) (leg.progress + amount);
              last_activity = now;
              idle_timer = clear_idle (leg.granted - amount) leg.idle_timer;
            })
            p.legs;
      in_flight = p.in_flight + amount;
    })
    else fails invalid_route p

-- A call of the pool inside `onGrant`, where `_distribute` returns at once, or a throw.
pub data Nested : Type 0 where
  cancels : ℕ → Nested
  releases : ℕ → ℕ → Nested
  removes : ℕ → Nested
  touches : ℕ → Nested
  destroys : Nested
  throws : Error → Nested

unfoldable pub nested : ℕ → Nested → Pool → Outcome
unfolding cancel touch destroy
nested now (cancels owner) p = done (cancel owner p)
nested now (releases owner amount) p = with_leg (lookup owner p.legs) (fails invalid_route p) λ leg.
    if is_releasable amount leg p
    then done (give_back owner amount leg p)
    else fails invalid_route p
nested now (removes owner) p =
    with_leg (lookup owner p.legs) (done p) λ leg. done (leave owner leg p)
nested now (touches owner) p = done (touch now owner p)
nested now destroys p = done (destroy p)
nested now (throws e) p = fails e p

-- What follows a call, unless it throws.
abbrev pub after : Outcome → Option Error → (Pool → Outcome) → Outcome
after o none next = next o.pool
after o (some e) next = o

unfoldable pub nested_all : ℕ → List Nested → Pool → Outcome
unfolding nested
nested_all now [] p = done p
nested_all now (c ∷ rest) p =
    let first = nested now c p in after first first.thrown (nested_all now rest)

-- A leg of the queue gets its share, and waits again for what it lacks.
abbrev pub hand_out : ℕ → ℕ → ℕ → List ℕ → Leg → Pool → Pool
hand_out now amount owner rest leg p = record p {
  available = p.available - amount;
  legs =
      assign owner
        (record leg {
          granted = leg.granted + amount;
          wanted = leg.wanted - amount;
          last_activity = now;
          idle_timer = elim leg.idle_timer [
            | none ↦ some credit_grant_idle_ms
            | some delay ↦ some delay
          ];
        })
        p.legs;
  pending = if ltb 0 (leg.wanted - amount) then rest ++ owner ∷ [] else rest;
  grants = p.grants ++ (owner, amount) ∷ [];
}

-- A leg asks for credit at the end of the queue.
abbrev pub enqueue : ℕ → ℕ → ℕ → Leg → Pool → Pool
enqueue now owner amount leg p = record p {
  legs =
      assign owner
        (record leg {
          last_demand_at = now;
          progress = leg.progress - demand_progress;
          demand_open = true;
          wanted = amount;
        })
        p.legs;
  pending = p.pending ++ owner ∷ [];
}

-- The condition of both loops of `_distribute`, with the first leg of the queue and the others.
abbrev pub while_shared {ℓ} : {B : Type ℓ} → ℕ → List ℕ → B → (ℕ → List ℕ → B) → B
while_shared zero pending stop next = stop
while_shared (suc available) [] stop next = stop
while_shared (suc available) (owner ∷ rest) stop next = next owner rest

-- One turn of the inner loop of `_distribute`, for the first leg of the queue.
module _ (now : ℕ) (reacts : List (ℕ × ℕ) → List Nested) where
  unfoldable pub give : ℕ → ℕ → List ℕ → Pool → Outcome
  unfolding nested_all
  give share owner rest p =
      with_leg (lookup owner p.legs) (done (record p { pending = rest })) λ leg.
        let given = hand_out now (min share (min leg.wanted p.available)) owner rest leg p in
        if leg.wanted == 0
        then done (record p { pending = rest })
        else nested_all now (reacts given.grants) given

  -- The inner loop, of `count` turns at most.
  unfoldable pub round : ℕ → ℕ → Pool → Outcome
  unfolding give
  round zero share p = done p
  round (suc count) share p = while_shared p.available p.pending (done p) λ owner rest.
      let first = give share owner rest p in after first first.thrown (round count share)

  -- The outer loop, on fuel.
  unfoldable pub rounds : ℕ → Pool → Outcome
  unfolding round
  rounds zero p = done p
  rounds (suc fuel) p = while_shared p.available p.pending (done p) λ owner rest.
      let count = length p.pending in
      let first = round count (max 1 (p.available / count)) p in
      after first first.thrown (rounds fuel)

  -- `_distribute()`
  unfoldable pub distribute : Pool → Outcome
  unfolding rounds
  distribute p =
      if p.closed
      then done p
      else rounds (sum_of (λ (l : Leg). l.wanted) p.legs + length p.pending) p

  -- `demand(owner, amount, rateLimited)`
  unfoldable pub demand : ℕ → ℕ → Bool → Pool → Outcome
  unfolding cancel distribute
  demand owner amount rate_limited p = with_leg (lookup owner p.legs) (fails invalid_route p) λ leg.
      if p.closed || ltb circuit_window amount
      then fails invalid_route p
      else if amount == 0
      then (if leg.demand_open then done (cancel owner p) else fails invalid_route p)
      else if not (leg.wanted == 0) || ltb circuit_window (leg.granted + amount)
      then fails invalid_route p
      else if rate_limited
          && (ltb leg.progress demand_progress && ltb now (leg.last_demand_at + credit_idle_ms))
      then fails invalid_route p
      else distribute (enqueue now owner amount leg p)

  -- `returned(amount)`
  unfoldable pub returned : ℕ → Pool → Outcome
  unfolding distribute
  returned amount p =
      if p.closed || (ltb amount 1 || ltb p.in_flight amount)
      then fails invalid_route p
      else distribute
          (record p { in_flight = p.in_flight - amount; available = p.available + amount })

  -- `release(owner, amount)`
  unfoldable pub release : ℕ → ℕ → Pool → Outcome
  unfolding distribute
  release owner amount p = with_leg (lookup owner p.legs) (fails invalid_route p) λ leg.
      if is_releasable amount leg p
      then distribute (give_back owner amount leg p)
      else fails invalid_route p

  -- `remove(owner)`
  unfoldable pub remove : ℕ → Pool → Outcome
  unfolding distribute
  remove owner p = with_leg (lookup owner p.legs) (done p) λ leg. distribute (leave owner leg p)

-- The callback of the timer in `_watchIdle`, for a leg of the map; `buffered` is whether the owner's
-- link holds bytes that came in. The clock never runs backwards.
unfoldable pub check_idle : ℕ → ℕ → Bool → Leg → Pool → Pool
check_idle now owner buffered leg p =
    let remaining = leg.last_activity + credit_grant_idle_ms - now in
    if p.closed || leg.granted == 0
    then write_leg owner (record leg { idle_timer = none }) p
    else if buffered
    then write_leg owner
        (record leg { last_activity = now; idle_timer = some credit_grant_idle_ms }) p
    else if ltb 0 remaining
    then write_leg owner (record leg { idle_timer = some remaining }) p
    else record p {
      legs = assign owner (record leg { idle_timer = none }) p.legs;
      idled = p.idled ++ owner ∷ [];
    }

abbrev pub if_armed : Option ℕ → Pool → Pool → Pool
if_armed none still fired = still
if_armed (some delay) still fired = fired

-- A timer that fires; only one that runs does.
unfoldable pub idle_fires : ℕ → ℕ → Bool → Pool → Pool
unfolding check_idle
idle_fires now owner buffered p =
    with_leg (lookup owner p.legs) p
      λ leg. if_armed leg.idle_timer p (check_idle now owner buffered leg p)
