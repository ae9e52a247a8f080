-- ===== src/Guards.antt =====
-- lib/private/private-peer-controller.js: the class `PinnedGuards`, the few relays through which a
-- client enters the network for a long time. A guard is an object: `id` tells guards of one key that
-- were made at different times apart. The field `diversityKey`, which the class only sets to null, is
-- left out.
pub mod Sets
pub mod Kept
pub mod Pinned
mod Tests
use hyperdht.Prelude.{
  ℕ, suc, ◌+◌, Bool, true, false, not, ◌&&◌, ◌||◌, Option, none, some, List, [], ◌∷◌, ◌++◌, length,
  ltb, ◌==◌, if◌then◌else◌,
}
use hyperdht.Errors.{Result, ok, err, invalid_route, privacy_unavailable}
use hyperdht.Dht.{Buffer, equals}

-- `GUARD_SET_SIZE`
abbrev pub guard_set_size : ℕ
guard_set_size = 3

-- `GUARD_LIFETIME_MS`
abbrev pub guard_lifetime_ms : ℕ
guard_lifetime_ms = 2419200000

pub record Guard : Type 0 where
  pub id : ℕ
  pub public_key : Buffer
  pub unreachable : Bool

pub record Guards : Type 0 where
  pub current : Option Guard
  pub alternates : List Guard
  pub rotate_at : ℕ
  pub made : ℕ

unfoldable pub construct : Guards
construct = record { current = none; alternates = []; rotate_at = 0; made = 0 }

-- `candidates()`
abbrev pub candidates_of : Option Guard → List Guard → List Guard
candidates_of none alternates = []
candidates_of (some g) alternates = g ∷ alternates

unfoldable pub candidates : Guards → List Guard
candidates s = candidates_of s.current s.alternates

abbrev pub all_unreachable : List Guard → Bool
all_unreachable [] = true
all_unreachable (g ∷ rest) = g.unreachable && all_unreachable rest

abbrev pub is_guard : Buffer → List Guard → Bool
is_guard k [] = false
is_guard k (g ∷ rest) = equals g.public_key k || is_guard k rest

-- The loop of `ensure`, with the guards that it has picked; a key that was seen is one of them.
unfoldable pub pick : List Buffer → ℕ → List Guard → List Guard
pick [] made guards = guards
pick (k ∷ relays) made guards =
    let next = guards ++ record { id = made; public_key = k; unreachable = false } ∷ [] in
    let later = pick relays (suc made) next in
    let same = pick relays made guards in
    if is_guard k guards then same else if length next == guard_set_size then next else later

-- `this.current = guards.shift() || null`, and the rest.
abbrev pub install : List Guard → ℕ → Guards → Guards
install [] rotate_at s = record s { current = none; alternates = []; rotate_at = rotate_at }
install (g ∷ rest) rotate_at s = record {
  current = some g;
  alternates = rest;
  rotate_at = rotate_at;
  made = s.made + guard_set_size;
}

abbrev pub is_some : Option Guard → Bool
is_some none = false
is_some (some g) = true

-- `ensure(relays, now)`
unfoldable pub ensure : List Buffer → ℕ → Guards → Guards
unfolding candidates pick
ensure relays now s =
    if is_some s.current && (ltb now s.rotate_at && not (all_unreachable (candidates s)))
    then s
    else install (pick relays s.made []) (now + guard_lifetime_ms) s

-- `isUnavailable(publicKey)`
abbrev pub is_unreachable_in : Buffer → List Guard → Bool
is_unreachable_in k [] = false
is_unreachable_in k (g ∷ rest) =
    (g.unreachable && equals g.public_key k) || is_unreachable_in k rest

unfoldable pub is_unavailable : Buffer → Guards → Bool
is_unavailable k s =
    is_unreachable_in k (candidates_of s.current []) || is_unreachable_in k s.alternates

-- A guard of the list, and the list without it.
abbrev pub find : ℕ → List Guard → Option Guard
find id [] = none
find id (g ∷ rest) = if g.id == id then some g else find id rest

abbrev pub except : ℕ → List Guard → List Guard
except id [] = []
except id (g ∷ rest) = if g.id == id then except id rest else g ∷ except id rest

abbrev pub mark : ℕ → List Guard → List Guard
mark id [] = []
mark id (g ∷ rest) = (if g.id == id then record g { unreachable = true } else g) ∷ mark id rest

abbrev pub if_found : Option Guard → Guards → (Guard → Guards) → Guards
if_found none s next = s
if_found (some g) s next = next g

-- `select(guard)`, of a guard of the set or of an earlier one.
unfoldable pub select : ℕ → Guards → Guards
unfolding candidates
select id s = if_found (find id (candidates s)) s λ g. record s {
  current = some (record g { unreachable = false });
  alternates = except id (candidates s);
}

-- The first of the guards, and the others.
abbrev pub rotate : List Guard → Guards → Guards
rotate [] s = record s { current = none; alternates = [] }
rotate (g ∷ rest) s = record s { current = some g; alternates = rest }

abbrev pub fail_current : ℕ → Option Guard → Guards → Guards
fail_current id none s = s
fail_current id (some g) s =
    if g.id == id
    then rotate (except id (g ∷ s.alternates) ++ record g { unreachable = true } ∷ []) s
    else record s { alternates = mark id s.alternates }

-- `failed(guard)`
unfoldable pub failed : ℕ → Guards → Guards
failed id s = fail_current id s.current s

-- `clear()`
unfoldable pub clear : Guards → Guards
clear s = record s { current = none; alternates = []; rotate_at = 0 }
