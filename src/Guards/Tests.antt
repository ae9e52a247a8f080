-- ===== src/Guards/Tests.antt =====
-- About the class `PinnedGuards` of lib/private/private-peer-controller.js: guards of one byte keys.
use hyperdht.Prelude.{ℕ, ◌≡◌, refl, true, false, some, List, [], ◌∷◌, arith}
use hyperdht.Dht.{Buffer}
use hyperdht.Guards.{
  Guard, Guards, construct, candidates, is_guard, pick, ensure, select, failed, is_unavailable,
}
use hyperdht.Guards.Pinned.{Call, ensures, selects, fails, step, play, Pins, play-Pins}

abbrev relays : List Buffer
relays = (1 ∷ []) ∷ (1 ∷ []) ∷ (2 ∷ []) ∷ (3 ∷ []) ∷ (4 ∷ []) ∷ []

abbrev guard : ℕ → ℕ → Guard
guard id key = record { id = id; public_key = key ∷ []; unreachable = false }

abbrev pinned : Guards
pinned = record {
  current = some (guard 0 1);
  alternates = guard 1 2 ∷ guard 2 3 ∷ [];
  rotate_at = 2419200100;
  made = 3;
}

-- A key that comes twice is picked once, and three are enough.
ensured : ensure relays 100 construct ≡ pinned
unfolding ensure construct candidates pick
ensured = refl

abbrev troubles : List Call
troubles = fails 0 ∷ ensures ((9 ∷ []) ∷ []) 200 ∷ selects 2 ∷ fails 1 ∷ []

-- The guard that failed comes last.
after_failure :
    candidates (failed 0 pinned)
    ≡ guard 1 2 ∷ guard 2 3 ∷ record (guard 0 1) { unreachable = true } ∷ []
unfolding failed candidates
after_failure = refl

unavailable : is_unavailable (1 ∷ []) (failed 0 pinned) ≡ true
unfolding failed is_unavailable
unavailable = refl

play-Pins_example :
    is_guard (3 ∷ []) (candidates (play troubles pinned)) ≡ is_guard (3 ∷ []) (candidates pinned)
unfolding Pins step candidates ensure select failed pick
play-Pins_example =
    play-Pins troubles pinned (3 ∷ []) (omega arith, ((refl, refl, (refl, refl, (refl, refl, tt)))))
      ((omega arith, refl, refl), tt)
