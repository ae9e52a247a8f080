-- ===== src/Guards/Pinned.antt =====
-- About the class `PinnedGuards` of lib/private/private-peer-controller.js: sequences of
-- its calls.
use hyperdht.Prelude.{
  ℕ, suc, ◌+◌, ◌<◌, ◌≡◌, refl, sym, ap, transport, ◌∙◌, true, false, not, ◌&&◌, List, [], ◌∷◌, ◌++◌,
  length, length-append, ltb, ◌==◌, arith,
}
use hyperdht.Dht.{Buffer, if_lem}
use hyperdht.Guards.{
  Guard, Guards, construct, candidates, candidates_of, all_unreachable, is_guard, pick, install,
  is_some, ensure, select, failed, clear, guard_set_size, guard_lifetime_ms,
}
use hyperdht.Guards.Sets.{has_id, Apart, IsGuardSet}
use hyperdht.Guards.Kept.{Apart-append_one, select-SameGuards, failed-SameGuards}

-- The guards that are picked are new objects with keys of their own.
abbrev IsBelow : ℕ → List Guard → Type 0
IsBelow n [] = Unit
IsBelow n (g ∷ rest) = (g.id < n) × IsBelow n rest

has_id-IsBelow : (n : ℕ) (l : List Guard) → IsBelow n l → has_id n l ≡ false
has_id-IsBelow n [] b = refl
has_id-IsBelow n (g ∷ rest) b = ground (arith, b.0, has_id-IsBelow n rest b.1)

IsBelow-append_one :
    (n : ℕ) (l : List Guard) (g : Guard) → IsBelow n l → g.id ≡ n → IsBelow (suc n) (l ++ g ∷ [])
IsBelow-append_one n [] g b e = (omega (arith, e), tt)
IsBelow-append_one n (h ∷ rest) g b e = (omega (arith, b.0), IsBelow-append_one n rest g b.1 e)

pick-IsGuardSet :
    (relays : List Buffer) (made : ℕ) (l : List Guard)
    → length l < guard_set_size
    → Apart l
    → IsBelow made l
    → IsGuardSet (pick relays made l)
unfolding pick
pick-IsGuardSet [] made l n a b = (omega (arith, n), a)
pick-IsGuardSet (k ∷ relays) made l n a b =
    let g : Guard = record { id = made; public_key = k; unreachable = false } in
    let next = l ++ g ∷ [] in
    let longer = length-append l (g ∷ []) in
    if_lem IsGuardSet (is_guard k l) _ _ (λ seen. pick-IsGuardSet relays made l n a b)
      λ unseen.
        let apart = Apart-append_one l g a (has_id-IsBelow made l b) unseen in
        if_lem IsGuardSet (length next == guard_set_size) _ _
          (λ full. (omega (arith, n, longer), apart))
          λ more.
            pick-IsGuardSet relays (suc made) next (ground (arith, more, n, longer)) apart
              (IsBelow-append_one made l g b refl)

install-candidates :
    (l : List Guard) (r : ℕ) (s : Guards)
    → candidates_of (install l r s).current (install l r s).alternates ≡ l
install-candidates [] r s = refl
install-candidates (g ∷ rest) r s = refl

ensure-IsGuardSet :
    (relays : List Buffer) (now : ℕ) (s : Guards)
    → IsGuardSet (candidates s)
    → IsGuardSet (candidates (ensure relays now s))
unfolding ensure candidates
ensure-IsGuardSet relays now s h =
    let l = pick relays s.made [] in
    if_lem (λ (t : Guards). IsGuardSet (candidates_of t.current t.alternates))
      (is_some s.current
        && (ltb now s.rotate_at && not (all_unreachable (candidates_of s.current s.alternates))))
      _ _ (λ stays. h)
      λ again.
        transport (ap IsGuardSet (sym (install-candidates l (now + guard_lifetime_ms) s)))
          (pick-IsGuardSet relays s.made [] (omega arith) tt tt)

-- The calls that arrive at a set of guards.
pub data Call : Type 0 where
  ensures : List Buffer → ℕ → Call
  selects fails : ℕ → Call
  clears : Call

unfoldable pub step : Call → Guards → Guards
unfolding ensure select failed clear
step (ensures relays now) s = ensure relays now s
step (selects id) s = select id s
step (fails id) s = failed id s
step clears s = clear s

unfoldable pub play : List Call → Guards → Guards
unfolding step
play [] s = s
play (c ∷ rest) s = play rest (step c s)

step-IsGuardSet :
    (c : Call) (s : Guards) → IsGuardSet (candidates s) → IsGuardSet (candidates (step c s))
unfolding step clear candidates
step-IsGuardSet (ensures relays now) s h = ensure-IsGuardSet relays now s h
step-IsGuardSet (selects id) s h = (select-SameGuards id s h).0
step-IsGuardSet (fails id) s h = (failed-SameGuards id s h).0
step-IsGuardSet clears s h = (omega arith, tt)

play_from :
    (calls : List Call) (s : Guards)
    → IsGuardSet (candidates s)
    → IsGuardSet (candidates (play calls s))
unfolding play
play_from [] s h = h
play_from (c ∷ rest) s h = play_from rest (step c s) (step-IsGuardSet c s h)

-- After any calls on a new set of guards, at most three are in it, no two of which have the same key.
pub play-IsGuardSet : (calls : List Call) → IsGuardSet (candidates (play calls construct))
unfolding construct candidates
play-IsGuardSet calls = play_from calls construct (omega arith, tt)

-- Calls that leave the guards pinned: `ensure` only before their time is over and while one can be
-- reached, and no `clear`.
unfoldable pub Pins : List Call → Guards → Type 0
unfolding step candidates
Pins [] s = Unit
Pins (ensures relays now ∷ rest) s =
    ((now < s.rotate_at) × (all_unreachable (candidates s) ≡ false) × (is_some s.current ≡ true))
    × Pins rest (step (ensures relays now) s)
Pins (selects id ∷ rest) s = Pins rest (step (selects id) s)
Pins (fails id ∷ rest) s = Pins rest (step (fails id) s)
Pins (clears ∷ rest) s = true ≡ false

ensure_stays :
    (relays : List Buffer) (now : ℕ) (s : Guards)
    → now < s.rotate_at
    → all_unreachable (candidates s) ≡ false
    → is_some s.current ≡ true
    → ensure relays now s ≡ s
unfolding ensure
ensure_stays relays now s early reached there = ground (arith, early, reached, there)

-- As long as the time of the guards is not over and one can be reached, the network cannot move the
-- client to other guards: whichever fail and are selected, each key stays in the set or out of it.
pub play-Pins :
    (calls : List Call) (s : Guards) (k : Buffer)
    → IsGuardSet (candidates s)
    → Pins calls s
    → is_guard k (candidates (play calls s)) ≡ is_guard k (candidates s)
unfolding play step Pins
play-Pins [] s k h p = refl
play-Pins (ensures relays now ∷ rest) s k h p =
    let same = ensure_stays relays now s p.0.0 p.0.1 p.0.2 in
    play-Pins rest (ensure relays now s) k (ensure-IsGuardSet relays now s h) p.1
    ∙ ap (λ t. is_guard k (candidates t)) same
play-Pins (selects id ∷ rest) s k h p =
    let now = select-SameGuards id s h in play-Pins rest (select id s) k now.0 p ∙ now.1 k
play-Pins (fails id ∷ rest) s k h p =
    let now = failed-SameGuards id s h in play-Pins rest (failed id s) k now.0 p ∙ now.1 k
play-Pins (clears ∷ rest) s k h p = absurd (ground (arith, p))
