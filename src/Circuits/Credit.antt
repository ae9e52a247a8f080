-- ===== src/Circuits/Credit.antt =====
-- About the class `CircuitCreditPool` of lib/private/private-peer-controller.js: the state that
-- its calls keep.
use hyperdht.Prelude.{
  ℕ, ◌+◌, ◌-◌, ◌*◌, ◌≤◌, ◌≡◌, refl, ◌∙◌, true, false, not, ◌&&◌, ◌||◌, Option, none, some, List, [],
  ◌∷◌, ltb, leb, if◌then◌else◌, length, arith, All, length-append,
}
use hyperdht.Prelude.Assoc.{
  lookup, has, assign, sum_of, Distinct, Distinct-assign, Distinct-delete, Distinct-append_one,
  length-assign, length-delete, All-assign, All-delete, All-append_one, All-lookup, sum_of-assign,
  sum_of-delete, sum_of-append,
}
use hyperdht.Dht.{if_lem}
use hyperdht.Circuits.{
  Leg, Pool, Outcome, circuit_window, max_route_streams, demand_progress, new_leg, with_leg,
  without, add, cancel, is_releasable, give_back, leave, touch, destroy, clear_idle,
}
use hyperdht.Circuits.Queue.{Queued, elem-without, Keeps, Queued-assign, Queued-delete}

abbrev pub granted_of : Leg → ℕ
granted_of leg = leg.granted

-- What a leg holds and asks for fits into the window, and it has earned two renewals at most.
abbrev pub Fits : ℕ × Leg → Type 0
Fits (owner, leg) =
    (leg.granted + leg.wanted ≤ circuit_window) × (leg.progress ≤ 2 * demand_progress)

-- All credit is available, granted or in flight, of an open pool.
abbrev pub Balanced : Pool → Type 0
Balanced p =
    p.available + (sum_of (λ (l : Leg). l.granted) p.legs + p.in_flight)
    ≡ (if p.closed then 0 else circuit_window)

abbrev pub IsSound : Pool → Type 0
IsSound p =
    Balanced p
    × (length p.legs ≤ max_route_streams)
    × Distinct p.legs
    × All Fits p.legs
    × All (Queued p.pending) p.legs

-- A call that changes one leg, the queue and the amounts.
abbrev pub changed : ℕ → Leg → ℕ → ℕ → List ℕ → Pool → Pool
changed owner leg available in_flight pending p = record p {
  legs = assign owner leg p.legs;
  available = available;
  in_flight = in_flight;
  pending = pending;
}

pub changed-IsSound :
    (owner : ℕ) (old leg : Leg) (available in_flight : ℕ) (pending : List ℕ) (p : Pool)
    → lookup owner p.legs ≡ some old
    → IsSound p
    → available + (in_flight + leg.granted) ≡ p.available + (p.in_flight + old.granted)
    → Fits (owner, leg)
    → Keeps owner p.pending pending
    → Queued pending (owner, leg)
    → IsSound (changed owner leg available in_flight pending p)
changed-IsSound owner old leg available in_flight pending p e s same fits keep queued =
    let sum = sum_of-assign granted_of owner old leg p.legs e in
    let small = length-assign owner leg p.legs in
    (
      omega (arith, sum, s.0, same),
      omega (arith, small, s.1),
      Distinct-assign owner leg p.legs s.2,
      All-assign Fits owner leg p.legs s.3 fits,
      Queued-assign owner leg p.pending pending p.legs s.4 keep queued s.2,
    )

pub with_leg_lem :
    {B : Type 0} (P : B → Type 0) (o : Option Leg) (missing : B) (next : Leg → B)
    → (o ≡ none → P missing)
    → ((leg : Leg) → o ≡ some leg → P (next leg))
    → P (with_leg o missing next)
with_leg_lem P none missing next g h = g refl
with_leg_lem P (some leg) missing next g h = h leg refl

-- A call on the leg of an owner that keeps the state.
pub on_leg :
    {B : Type 0} (P : B → Type 0) (owner : ℕ) (p : Pool) (missing : B) (next : Leg → B)
    → IsSound p
    → P missing
    → ((leg : Leg)
        → lookup owner p.legs ≡ some leg
        → Fits (owner, leg)
        → Queued p.pending (owner, leg)
        → P (next leg))
    → P (with_leg (lookup owner p.legs) missing next)
on_leg P owner p missing next s g h =
    with_leg_lem P (lookup owner p.legs) missing next (λ e. g)
      λ leg e.
        h leg e (All-lookup Fits owner p.legs leg s.3 e)
          (All-lookup (Queued p.pending) owner p.legs leg s.4 e)

abbrev pub OutcomeIsSound : Outcome → Type 0
OutcomeIsSound o = IsSound o.pool

pub add-IsSound : (owner : ℕ) (p : Pool) → IsSound p → IsSound (add owner p).pool
unfolding add
add-IsSound owner p s =
    let wrong = p.closed || (leb max_route_streams (length p.legs) || has owner p.legs) in
    if_lem OutcomeIsSound wrong _ _ (λ e. s)
      λ e.
        let sum = sum_of-append granted_of p.legs ((owner, new_leg) ∷ []) in
        let more = length-append p.legs ((owner, new_leg) ∷ []) in
        (
          ground (arith, sum, s.0, e),
          ground (arith, more, s.1, e),
          Distinct-append_one p.legs owner new_leg s.2 (ground (arith, e)),
          All-append_one Fits p.legs (owner, new_leg) s.3 (ground arith),
          All-append_one (Queued p.pending) p.legs (owner, new_leg) s.4 (ground arith),
        )

pub cancel-IsSound : (owner : ℕ) (p : Pool) → IsSound p → IsSound (cancel owner p)
unfolding cancel
cancel-IsSound owner p s = on_leg IsSound owner p p _ s s λ leg e fits queued.
    changed-IsSound owner leg (record leg { wanted = 0; demand_open = false }) p.available
      p.in_flight (without owner p.pending) p e s refl (ground arith)
      (λ o differ h. elem-without o owner p.pending differ ∙ h) refl

pub give_back-IsSound :
    (owner amount : ℕ) (leg : Leg) (p : Pool)
    → lookup owner p.legs ≡ some leg
    → IsSound p
    → Fits (owner, leg)
    → Queued p.pending (owner, leg)
    → is_releasable amount leg p ≡ true
    → IsSound (give_back owner amount leg p)
give_back-IsSound owner amount leg p e s fits queued h =
    changed-IsSound owner leg
      (record leg {
        granted = leg.granted - amount;
        idle_timer = clear_idle (leg.granted - amount) leg.idle_timer;
      })
      (p.available + amount) p.in_flight p.pending p e s (ground arith) (ground arith)
      (λ o differ h. h) queued

pub leave-IsSound :
    (owner : ℕ) (leg : Leg) (p : Pool)
    → lookup owner p.legs ≡ some leg
    → IsSound p
    → IsSound (leave owner leg p)
leave-IsSound owner leg p e s =
    let sum = sum_of-delete granted_of owner leg p.legs e in
    let fewer = length-delete owner p.legs leg e in
    (
      omega (arith, sum, s.0),
      omega (arith, fewer, s.1),
      Distinct-delete owner p.legs s.2,
      All-delete Fits owner p.legs s.3,
      Queued-delete owner p.pending (without owner p.pending) p.legs s.4
          (λ o differ h. elem-without o owner p.pending differ ∙ h) s.2,
    )

pub touch-IsSound : (now owner : ℕ) (p : Pool) → IsSound p → IsSound (touch now owner p)
unfolding touch
touch-IsSound now owner p s = on_leg IsSound owner p p _ s s λ leg e fits queued.
    if_lem IsSound (not p.closed && ltb 0 leg.granted) _ _
      (λ h.
        changed-IsSound owner leg (record leg { last_activity = now }) p.available p.in_flight
          p.pending p e s refl fits (λ o differ h. h) queued)
      λ h. s

pub destroy-IsSound : (p : Pool) → IsSound (destroy p)
unfolding destroy
destroy-IsSound p = (refl, omega arith, tt, tt, tt)
