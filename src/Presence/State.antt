-- ===== src/Presence/State.antt =====
-- lib/private/blinded-presence.js: `resolvePresenceState`, which a reader applies to each record that
-- it opened, with the state that the last one left. That state has the form of what the function
-- returns.
use hyperdht.Prelude.{
  ℕ, ◌<◌, ◌≡◌, ◌⊎◌, Bool, true, false, not, ◌&&◌, ◌||◌, Option, none, some, List, [], ◌∷◌, length,
  ltb, ◌==◌, if◌then◌else◌,
}
use hyperdht.Errors.{Result, ok, err, invalid_descriptor, replay}
use hyperdht.Cells.Bytes.{max_uint64}
use hyperdht.Dht.{Buffer, equals}
use hyperdht.Presence.{Entry, descriptor, tombstone, max_uint32, scope_period, scope_record}

-- `present` is true with a descriptor, false, or null.
pub data Presence : Type 0 where
  present : Buffer → Presence
  absent unknown : Presence

pub record State : Type 0 where
  pub presence : Presence
  pub period : ℕ
  pub revision : ℕ
  pub record_digest : Buffer

-- A record that was opened, with its digest.
pub record Record : Type 0 where
  pub period : ℕ
  pub revision : ℕ
  pub record_digest : Buffer
  pub entry : Entry

abbrev pub is_absent : Presence → Bool
is_absent (present bytes) = false
is_absent absent = true
is_absent unknown = false

abbrev pub with_presence : Record → Presence → State
with_presence r p = record {
  presence = p;
  period = r.period;
  revision = r.revision;
  record_digest = r.record_digest;
}

-- `samePeriod` and `sameRecord`
abbrev pub same_period : Option State → Record → Bool
same_period none r = false
same_period (some s) r = s.period == r.period

abbrev pub same_record : Option State → Record → Bool
same_record none r = false
same_record (some s) r =
    s.period == r.period && (r.revision == s.revision && equals r.record_digest s.record_digest)

abbrev pub is_replay : Option State → Record → Bool
is_replay none r = false
is_replay (some s) r =
    ltb r.period s.period
    || (s.period == r.period
        && (ltb r.revision s.revision
            || (r.revision == s.revision && not (same_record (some s) r))))

-- Whether a tombstone for one record hides the identity.
abbrev pub hides : Option State → Record → Buffer → Bool
hides none r target = false
hides (some s) r target =
    (same_record (some s) r && is_absent s.presence)
    || (s.period == r.period && equals target s.record_digest)

abbrev pub resolve_entry : Option State → Record → Entry → Result State
resolve_entry previous r (descriptor bytes) = ok (with_presence r (present bytes))
resolve_entry previous r (tombstone scope target) =
    if scope == scope_period
    then ok (with_presence r absent)
    else if scope == scope_record
    then ok (with_presence r (if hides previous r target then absent else unknown))
    else err invalid_descriptor

-- `resolvePresenceState({ previous, opened })`
unfoldable pub resolve_presence_state : Option State → Record → Result State
resolve_presence_state previous r =
    if ltb max_uint32 r.revision || (ltb max_uint64 r.period || not (length r.record_digest == 32))
    then err invalid_descriptor
    else if is_replay previous r
    then err replay
    else resolve_entry previous r r.entry

-- A reader that resolves one record after the other, and keeps its state where that throws.
abbrev pub keep : Option State → Result State → Option State
keep previous (ok s) = some s
keep previous (err e) = previous

unfoldable pub observe : List Record → Option State → Option State
unfolding resolve_presence_state
observe [] previous = previous
observe (r ∷ rest) previous = observe rest (keep previous (resolve_presence_state previous r))

-- A later period, a later revision of the same period, or the same record.
abbrev pub Follows : State → State → Type 0
Follows s t =
    (s.period < t.period)
    ⊎ ((s.period ≡ t.period)
        × ((s.revision < t.revision)
            ⊎ ((s.revision ≡ t.revision) × (s.record_digest ≡ t.record_digest))))
