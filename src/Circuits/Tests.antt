-- ===== src/Circuits/Tests.antt =====
-- About the class `CircuitCreditPool` of lib/private/private-peer-controller.js: runs on concrete
-- calls.
use hyperdht.Prelude.{ℕ, ◌≡◌, refl, false, List, [], ◌∷◌, arith, All}
use hyperdht.Circuits.{
  Nested, cancels, releases, construct, circuit_window, add, cancel, touch, destroy, nested,
  nested_all, give, round, rounds, distribute, demand, sent, returned, release, remove, check_idle,
  idle_fires,
}
use hyperdht.Circuits.Calls.{Call, adds, demands, sends, returns, removes_now, play, step}
use hyperdht.Circuits.Credit.{IsSound}
use hyperdht.Circuits.Rounds.{play-IsSound}
use hyperdht.Circuits.Settled.{play-AsksNothing, AllReturn, AsksNothing}

abbrev quiet : List (ℕ × ℕ) → List Nested
quiet grants = []

-- A stream that has ended gives its grant back at once.
abbrev ended : List (ℕ × ℕ) → List Nested
ended [] = []
ended ((owner, amount) ∷ rest) = cancels owner ∷ releases owner amount ∷ []

abbrev two_streams : List Call
two_streams = adds 1 ∷ adds 2 ∷ demands 0 quiet 1 2000 false ∷ demands 0 quiet 2 100 false ∷ []

abbrev some_traffic : List Call
some_traffic =
    adds 1
    ∷ adds 2
    ∷ demands 0 quiet 1 2000 false
    ∷ demands 0 quiet 2 100 false
    ∷ sends 1 1 500
    ∷ returns 2 quiet 500
    ∷ removes_now 3 quiet 1
    ∷ []

-- The second stream waits for what the first one has taken.
two_streams_available :
    ((play two_streams construct).available ≡ 0) × ((play two_streams construct).pending ≡ 2 ∷ [])
unfolding construct play step add cancel touch destroy nested nested_all give round rounds
    distribute demand sent returned release remove check_idle idle_fires
two_streams_available = (refl, refl)

some_traffic_available : (play some_traffic construct).available ≡ 1948
unfolding construct play step add cancel touch destroy nested nested_all give round rounds
    distribute demand sent returned release remove check_idle idle_fires
some_traffic_available = refl

some_traffic_returns : AllReturn some_traffic construct
unfolding construct play step add cancel touch destroy nested nested_all give round rounds
    distribute demand sent returned release remove check_idle idle_fires AllReturn
some_traffic_returns = (refl, (refl, (refl, (refl, (refl, (refl, (refl, tt)))))))

-- A grant that the callback gives back does not stay with the leg.
ended_stream :
    (play (adds 1 ∷ demands 0 ended 1 10 false ∷ []) construct).available ≡ circuit_window
unfolding construct play step add cancel touch destroy nested nested_all give round rounds
    distribute demand sent returned release remove check_idle idle_fires
ended_stream = refl

play-IsSound_example : IsSound (play some_traffic construct)
play-IsSound_example = play-IsSound some_traffic

play-AsksNothing_example : All AsksNothing (play some_traffic construct).legs
unfolding construct play step add cancel touch destroy nested nested_all give round rounds
    distribute demand sent returned release remove check_idle idle_fires
play-AsksNothing_example = play-AsksNothing some_traffic some_traffic_returns (omega arith)
