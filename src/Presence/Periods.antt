-- ===== src/Presence/Periods.antt =====
-- lib/private/blinded-presence.js: the periods under which an owner publishes and a reader looks up.
-- A time is a number of milliseconds, of which the source takes the floor.
use hyperdht.Prelude.{
  ℕ, suc, ◌+◌, ◌-◌, ◌*◌, ◌/◌, ◌≤◌, ◌<◌, ◌≡◌, ◌&&◌, true, false, Bool, List, [], ◌∷◌, leb, ltb, ◌==◌,
  ◌||◌, arith, if◌then◌else◌,
}
use hyperdht.Blinding.{period_ms}

-- `OVERLAP_MS`
abbrev pub overlap_ms : ℕ
overlap_ms = 3600000

-- `periodOf(wallMs)`
unfoldable pub period_of : ℕ → ℕ
period_of wall_ms = wall_ms / period_ms

-- `publishPeriods(wallMs)`
unfoldable pub publish_periods : ℕ → List ℕ
unfolding period_of
publish_periods wall_ms =
    let current = period_of wall_ms in
    if leb (suc current * period_ms - overlap_ms) wall_ms
    then current ∷ suc current ∷ []
    else current ∷ []

-- `lookupPeriods(wallMs)`
unfoldable pub lookup_periods : ℕ → List ℕ
unfolding period_of
lookup_periods wall_ms =
    let current = period_of wall_ms in
    if ltb 0 current && ltb wall_ms (current * period_ms + overlap_ms)
    then current ∷ (current - 1) ∷ []
    else current ∷ []

abbrev pub includes : ℕ → List ℕ → Bool
includes p [] = false
includes p (q ∷ rest) = p == q || includes p rest

-- A reader whose clock is ahead of the owner's by less than an hour looks up the period that is
-- current for the owner, and the owner publishes already under the one that is current for the
-- reader.
pub publish_periods-lookup_periods :
    (owner reader : ℕ)
    → owner ≤ reader
    → reader < owner + overlap_ms
    → (includes (period_of owner) (lookup_periods reader) ≡ true)
      × (includes (period_of reader) (publish_periods owner) ≡ true)
unfolding period_of lookup_periods publish_periods
publish_periods-lookup_periods owner reader h g =
    let low : owner / period_ms ≤ reader / period_ms = omega arith in
    let high : reader / period_ms ≤ suc (owner / period_ms) = omega arith in
    (ground arith, ground arith)
