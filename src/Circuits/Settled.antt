-- ===== src/Circuits/Settled.antt =====
-- About the class `CircuitCreditPool` of lib/private/private-peer-controller.js: what its calls leave
-- in the queue.
use hyperdht.Prelude.{
  ℕ, ◌+◌, ◌-◌, ◌≤◌, ◌≡◌, refl, ap, Bool, false, not, ◌&&◌, ◌||◌, none, List, [], ◌∷◌, ltb, leb,
  ◌==◌, length, arith, All,
}
use hyperdht.Prelude.Assoc.{lookup, has}
use hyperdht.Errors.{Error, invalid_route}
use hyperdht.Dht.{if_lem}
use hyperdht.Circuits.{
  Leg, Pool, fails, circuit_window, max_route_streams, credit_grant_idle_ms, demand_progress,
  credit_idle_ms, construct, without, add, cancel, is_releasable, give_back, leave, touch, destroy,
  Nested, enqueue, demand, sent, returned, release, remove, idle_fires, check_idle,
}
use hyperdht.Circuits.Calls.{
  Call, adds, demands, sends, touches_now, returns, releases_now, cancels_now, removes_now, idles,
  destroys_now, step, play,
}
use hyperdht.Circuits.Queue.{elem, Queued}
use hyperdht.Circuits.Credit.{IsSound, with_leg_lem, leave-IsSound}
use hyperdht.Circuits.Rounds.{if_armed_lem, play_from, step-IsSound}
use hyperdht.Circuits.Sharing.{IsSettled, Settles, distribute-Settles}

fails-Settles : (e : Error) (p : Pool) → Settles (fails e p)
fails-Settles e p returned_ = absurd (ground (arith, returned_))

add-Settles : (owner : ℕ) (p : Pool) → IsSettled p → Settles (add owner p)
unfolding add
add-Settles owner p h =
    if_lem Settles (p.closed || (leb max_route_streams (length p.legs) || has owner p.legs)) _ _
      (λ e returned_. h) λ e returned_. h

cancel-IsSettled : (owner : ℕ) (p : Pool) → IsSettled p → IsSettled (cancel owner p)
unfolding cancel
cancel-IsSettled owner p h =
    with_leg_lem IsSettled (lookup owner p.legs) _ _ (λ e. h)
      λ leg e some_left. ap (without owner) (h some_left)

touch-IsSettled : (now owner : ℕ) (p : Pool) → IsSettled p → IsSettled (touch now owner p)
unfolding touch
touch-IsSettled now owner p h =
    with_leg_lem IsSettled (lookup owner p.legs) _ _ (λ e. h)
      λ leg e. if_lem IsSettled (not p.closed && ltb 0 leg.granted) _ _ (λ g. h) λ g. h

sent-Settles : (now owner amount : ℕ) (p : Pool) → IsSettled p → Settles (sent now owner amount p)
unfolding sent
sent-Settles now owner amount p h =
    with_leg_lem Settles (lookup owner p.legs) _ _ (λ e returned_. h)
      λ leg e. if_lem Settles (is_releasable amount leg p) _ _ (λ g returned_. h) λ g returned_. h

idle_fires-IsSettled :
    (now owner : ℕ) (buffered : Bool) (p : Pool)
    → IsSettled p
    → IsSettled (idle_fires now owner buffered p)
unfolding idle_fires check_idle
idle_fires-IsSettled now owner buffered p h =
    with_leg_lem IsSettled (lookup owner p.legs) _ _ (λ e. h)
      λ leg e. if_armed_lem IsSettled leg.idle_timer p (check_idle now owner buffered leg p) h (
        if_lem IsSettled (p.closed || leg.granted == 0) _ _ (λ g. h)
          λ g.
            if_lem IsSettled buffered _ _ (λ g. h)
              λ g.
                if_lem IsSettled (ltb 0 (leg.last_activity + credit_grant_idle_ms - now)) _ _
                  (λ g. h) λ g. h)

module _ (now : ℕ) (reacts : List (ℕ × ℕ) → List Nested) where
  demand-Settles :
      (owner amount : ℕ) (limited : Bool) (p : Pool)
      → IsSettled p
      → Settles (demand now reacts owner amount limited p)
  unfolding demand
  demand-Settles owner amount limited p h =
      with_leg_lem Settles (lookup owner p.legs) _ _ (λ e. fails-Settles invalid_route p)
        λ leg e.
          if_lem Settles (p.closed || ltb circuit_window amount) _ _
            (λ g. fails-Settles invalid_route p)
            λ in_range.
              if_lem Settles (amount == 0) _ _
                (λ g.
                  if_lem Settles leg.demand_open _ _ (λ g returned_. cancel-IsSettled owner p h)
                    λ g. fails-Settles invalid_route p)
                λ g.
                  if_lem Settles
                    (not (leg.wanted == 0) || ltb circuit_window (leg.granted + amount)) _ _
                    (λ g. fails-Settles invalid_route p)
                    λ small.
                      if_lem Settles
                        (limited
                          && (ltb leg.progress demand_progress
                              && ltb now (leg.last_demand_at + credit_idle_ms)))
                        _ _ (λ g. fails-Settles invalid_route p)
                        λ g.
                          distribute-Settles now reacts (enqueue now owner amount leg p)
                            (λ closed. absurd (ground (arith, closed, in_range)))

  returned-Settles : (amount : ℕ) (p : Pool) → Settles (returned now reacts amount p)
  unfolding returned
  returned-Settles amount p =
      if_lem Settles (p.closed || (ltb amount 1 || ltb p.in_flight amount)) _ _
        (λ g. fails-Settles invalid_route p)
        λ g.
          distribute-Settles now reacts
            (record p { in_flight = p.in_flight - amount; available = p.available + amount })
            (λ closed. absurd (ground (arith, closed, g)))

  release-Settles : (owner amount : ℕ) (p : Pool) → Settles (release now reacts owner amount p)
  unfolding release
  release-Settles owner amount p =
      with_leg_lem Settles (lookup owner p.legs) _ _ (λ e. fails-Settles invalid_route p)
        λ leg e.
          if_lem Settles (is_releasable amount leg p) _ _
            (λ g.
              distribute-Settles now reacts (give_back owner amount leg p)
                (λ closed. absurd (ground (arith, closed, g))))
            λ g. fails-Settles invalid_route p

  remove-Settles :
      (owner : ℕ) (p : Pool) → IsSound p → IsSettled p → Settles (remove now reacts owner p)
  unfolding remove
  remove-Settles owner p s h =
      with_leg_lem Settles (lookup owner p.legs) _ _ (λ e returned_. h)
        λ leg e.
          let gone = leave-IsSound owner leg p e s in
          distribute-Settles now reacts (leave owner leg p)
            (λ closed. ground (arith, gone.0, closed))

step-Settles : (c : Call) (p : Pool) → IsSound p → IsSettled p → Settles (step c p)
unfolding step destroy
step-Settles (adds owner) p s h = add-Settles owner p h
step-Settles (demands now reacts owner amount limited) p s h =
    demand-Settles now reacts owner amount limited p h
step-Settles (sends now owner amount) p s h = sent-Settles now owner amount p h
step-Settles (touches_now now owner) p s h = λ returned_. touch-IsSettled now owner p h
step-Settles (returns now reacts amount) p s h = returned-Settles now reacts amount p
step-Settles (releases_now now reacts owner amount) p s h =
    release-Settles now reacts owner amount p
step-Settles (cancels_now owner) p s h = λ returned_. cancel-IsSettled owner p h
step-Settles (removes_now now reacts owner) p s h = remove-Settles now reacts owner p s h
step-Settles (idles now owner buffered) p s h =
    λ returned_. idle_fires-IsSettled now owner buffered p h
step-Settles destroys_now p s h = λ returned_ some_left. refl

-- Every call of a list returns.
unfoldable pub AllReturn : List Call → Pool → Type 0
unfolding step
AllReturn [] p = Unit
AllReturn (c ∷ rest) p = ((step c p).thrown ≡ none) × AllReturn rest (step c p).pool

abbrev pub AsksNothing : ℕ × Leg → Type 0
AsksNothing (owner, leg) = leg.wanted ≡ 0

play-IsSettled :
    (calls : List Call) (p : Pool)
    → AllReturn calls p
    → IsSound p
    → IsSettled p
    → IsSettled (play calls p)
unfolding play AllReturn
play-IsSettled [] p r s h = h
play-IsSettled (c ∷ rest) p r s h =
    play-IsSettled rest (step c p).pool r.1 (step-IsSound c p s) (step-Settles c p s h r.0)

asks_nothing : (q : List ℕ) (m : List (ℕ × Leg)) → q ≡ [] → All (Queued q) m → All AsksNothing m
asks_nothing q [] e a = tt
asks_nothing q ((o, l) ∷ m) e a =
    let nobody : elem o q ≡ false = ap (elem o) e in
    (ground (arith, a.0, nobody), asks_nothing q m e a.1)

-- After calls on a new pool that all return, no leg still asks for credit while some is available:
-- every call that frees credit or asks for it hands it out before it returns.
pub play-AsksNothing :
    (calls : List Call)
    → AllReturn calls construct
    → 1 ≤ (play calls construct).available
    → All AsksNothing (play calls construct).legs
unfolding construct
play-AsksNothing calls r some_left =
    let start : IsSound construct = (refl, omega arith, tt, tt, tt) in
    asks_nothing (play calls construct).pending (play calls construct).legs
      (play-IsSettled calls construct r start (λ h. refl) some_left)
      (play_from calls construct start).4
