-- ===== src/Presence/History.antt =====
-- About `resolvePresenceState` of lib/private/blinded-presence.js: what a reader knows after the
-- records that it opened.
use hyperdht.Prelude.{
  ◌≤◌, ◌<◌, ◌≡◌, ◌⊎◌, inl, inr, refl, sym, ap, ◌∙◌, Bool, true, false, not, ◌||◌, Option, none,
  some, List, [], ◌∷◌, ◌++◌, arith, length, ltb, ◌==◌, if◌then◌else◌, Bool-cases,
}
use hyperdht.Errors.{Result-cases, ok, err, replay, invalid_descriptor}
use hyperdht.Cells.Bytes.{max_uint64}
use hyperdht.Dht.{Buffer, equals, equals-eq, equals_refl}
use hyperdht.Presence.{Entry, descriptor, tombstone, max_uint32, scope_period, scope_record}
use hyperdht.Presence.State.{
  State, Record, absent, unknown, present, resolve_presence_state, resolve_entry, is_replay, keep,
  observe, Follows, with_presence, hides,
}

-- The period, the revision and the digest are those of the record.
abbrev pub IsAt : Record → State → Type 0
IsAt r t = (t.period ≡ r.period) × (t.revision ≡ r.revision) × (t.record_digest ≡ r.record_digest)

resolve_entry-IsAt :
    (previous : Option State) (r : Record) (e : Entry) (t : State)
    → resolve_entry previous r e ≡ ok t
    → IsAt r t
resolve_entry-IsAt previous r (descriptor bytes) t h = ground (arith, h)
resolve_entry-IsAt previous r (tombstone scope target) t h = ground (arith, h)

-- A record that is resolved was no replay.
resolved :
    (previous : Option State) (r : Record) (t : State)
    → resolve_presence_state previous r ≡ ok t
    → (is_replay previous r ≡ false) × (resolve_entry previous r r.entry ≡ ok t)
unfolding resolve_presence_state
resolved previous r t h = ground (arith, h)

out_of_range : Record → Bool
out_of_range r =
    ltb max_uint32 r.revision || (ltb max_uint64 r.period || not (length r.record_digest == 32))

in_range :
    (previous : Option State) (r : Record) (t : State)
    → resolve_presence_state previous r ≡ ok t
    → out_of_range r ≡ false
unfolding resolve_presence_state out_of_range
in_range previous r t h = ground (arith, h)

no_replay :
    (s : State) (r : Record) (t : State) → is_replay (some s) r ≡ false → IsAt r t → Follows s t
no_replay s r t h at_record = elim (Bool-cases (equals r.record_digest s.record_digest)) [
  | inl e ↦
      let same : s.record_digest ≡ t.record_digest =
        sym (equals-eq r.record_digest s.record_digest e) ∙ sym at_record.2 in
      ground (arith, h, at_record, same, e)
  | inr e ↦ ground (arith, h, at_record, e)
]

Follows-trans : (s t u : State) → Follows s t → Follows t u → Follows s u
Follows-trans s t u a b = ground (arith, a, b)

resolve-Follows :
    (s : State) (r : Record) (t : State) → resolve_presence_state (some s) r ≡ ok t → Follows s t
resolve-Follows s r t h =
    let parts = resolved (some s) r t h in
    no_replay s r t parts.0 (resolve_entry-IsAt (some s) r r.entry t parts.1)

-- What a reader keeps after a record, as it was or as the record says.
keeps :
    (s : State) (r : Record)
    → (t : State) × (keep (some s) (resolve_presence_state (some s) r) ≡ some t) × Follows s t
keeps s r = elim (Result-cases (resolve_presence_state (some s) r)) [
  | inl (t, e) ↦ (t, ap (keep (some s)) e, resolve-Follows s r t e)
  | inr (x, e) ↦ (s, ap (keep (some s)) e, inr (refl, inr (refl, refl)))
]

-- Whatever records a reader resolves, its period never goes back, its revision never goes back in a
-- period, and a record of the same period and revision stays the same.
pub observe-Follows :
    (records : List Record) (s : State)
    → (t : State) × (observe records (some s) ≡ some t) × Follows s t
unfolding observe
observe-Follows [] s = (s, refl, inr (refl, inr (refl, refl)))
observe-Follows (r ∷ rest) s =
    let first = keeps s r in
    let later = observe-Follows rest first.0 in
    (later.0, ap (observe rest) first.1 ∙ later.1, Follows-trans s first.0 later.0 first.2 later.2)

-- A record as `openPresenceRecord` returns it.
abbrev pub IsKnown : Entry → Type 0
IsKnown (descriptor bytes) = Unit
IsKnown (tombstone scope target) = (scope ≡ scope_period) ⊎ (scope ≡ scope_record)

abbrev pub IsValid : Record → Type 0
IsValid r =
    (r.period ≤ max_uint64)
    × (r.revision ≤ max_uint32)
    × (length r.record_digest ≡ 32)
    × IsKnown r.entry

-- A state of a later period, or of the record's period with its revision or a later one.
abbrev pub IsPast : Record → State → Type 0
IsPast r t = (r.period < t.period) ⊎ ((r.period ≡ t.period) × (r.revision ≤ t.revision))

entry_resolves :
    (previous : Option State) (r : Record) (e : Entry)
    → IsKnown e
    → (t : State) × (resolve_entry previous r e ≡ ok t) × IsAt r t
entry_resolves previous r (descriptor bytes) h =
    (with_presence r (present bytes), refl, (refl, refl, refl))
entry_resolves previous r (tombstone scope target) (inl p) =
    (with_presence r absent, ground (arith, p), (refl, refl, refl))
entry_resolves previous r (tombstone scope target) (inr p) = (
  with_presence r (if hides previous r target then absent else unknown),
  ground (arith, p),
  (refl, refl, refl),
)

replayed : (s : State) (r : Record) → is_replay (some s) r ≡ true → IsPast r s
replayed s r h = ground (arith, h)

refused :
    (previous : Option State) (r : Record)
    → IsValid r
    → is_replay previous r ≡ true
    → resolve_presence_state previous r ≡ err replay
unfolding resolve_presence_state
refused previous r v h = ground (arith, v, h)

taken :
    (previous : Option State) (r : Record) (t : State)
    → IsValid r
    → is_replay previous r ≡ false
    → resolve_entry previous r r.entry ≡ ok t
    → resolve_presence_state previous r ≡ ok t
unfolding resolve_presence_state
taken previous r t v h e = ground (arith, v, h, e)

is_past : (r : Record) (t : State) → IsAt r t → IsPast r t
is_past r t h = ground (arith, h)

-- After a record that is valid, the state is past it in this sense.
past :
    (previous : Option State) (r : Record)
    → IsValid r
    → (t : State) × (keep previous (resolve_presence_state previous r) ≡ some t) × IsPast r t
past none r v =
    let next = entry_resolves none r r.entry v.3 in
    (next.0, ap (keep none) (taken none r next.0 v refl next.1), is_past r next.0 next.2)
past (some s) r v = elim (Bool-cases (is_replay (some s) r)) [
  | inl h ↦ (s, ap (keep (some s)) (refused (some s) r v h), replayed s r h)
  | inr h ↦
      let next = entry_resolves (some s) r r.entry v.3 in
      (next.0, ap (keep (some s)) (taken (some s) r next.0 v h next.1), is_past r next.0 next.2)
]

IsPast-Follows : (r : Record) (s t : State) → IsPast r s → Follows s t → IsPast r t
IsPast-Follows r s t a b = ground (arith, a, b)

-- Whatever records come before and after, a valid record that is among those that a reader resolves
-- leaves it in this record's period with its revision or a later one, or in a later period, whatever
-- the revision there.
pub observe-IsPast :
    (before after : List Record) (r : Record) (previous : Option State)
    → IsValid r
    → (t : State) × (observe (before ++ r ∷ after) previous ≡ some t) × IsPast r t
unfolding observe
observe-IsPast [] after r previous v =
    let here = past previous r v in
    let later = observe-Follows after here.0 in
    (later.0, ap (observe after) here.1 ∙ later.1, IsPast-Follows r here.0 later.0 here.2 later.2)
observe-IsPast (q ∷ before) after r previous v =
    observe-IsPast before after r (keep previous (resolve_presence_state previous q)) v

-- A tombstone for one record does not name the record that carries it.
abbrev pub NamesOther : Record → Entry → Type 0
NamesOther r (descriptor bytes) = Unit
NamesOther r (tombstone scope target) = equals target r.record_digest ≡ false

hides_again :
    (r : Record) (target : Buffer) (b : Bool)
    → equals target r.record_digest ≡ false
    → hides (some (with_presence r (if b then absent else unknown))) r target ≡ b
hides_again r target true h = ground (arith, h, equals_refl r.record_digest)
hides_again r target false h = ground (arith, h)

again :
    (previous : Option State) (r : Record) (e : Entry) (t : State)
    → NamesOther r e
    → resolve_entry previous r e ≡ ok t
    → resolve_entry (some t) r e ≡ ok t
again previous r (descriptor bytes) t h made = made
again previous r (tombstone scope target) t h made = elim (Bool-cases (scope == scope_record)) [
  | inl e ↦
      let b = hides previous r target in
      let found : t ≡ with_presence r (if b then absent else unknown) = ground (arith, e, made) in
      let same : hides (some t) r target ≡ b =
        ap (λ x. hides (some x) r target) found ∙ hides_again r target b h in
      ap
        (λ x.
          if scope == scope_period
          then ok (with_presence r absent)
          else if scope == scope_record
          then ok (with_presence r (if x then absent else unknown))
          else err invalid_descriptor)
        same
      ∙ made
  | inr e ↦ ground (arith, e, made)
]

-- A record that was resolved leaves the same state when it is resolved once more, if it is no
-- tombstone that names itself.
pub resolve_presence_state_twice :
    (previous : Option State) (r : Record) (t : State)
    → NamesOther r r.entry
    → resolve_presence_state previous r ≡ ok t
    → resolve_presence_state (some t) r ≡ ok t
unfolding resolve_presence_state out_of_range
resolve_presence_state_twice previous r t h made =
    let parts = resolved previous r t made in
    let at_record = resolve_entry-IsAt previous r r.entry t parts.1 in
    let once_more = again previous r r.entry t h parts.1 in
    let same : equals r.record_digest t.record_digest ≡ true =
      ap (equals r.record_digest) at_record.2 ∙ equals_refl r.record_digest in
    let no : is_replay (some t) r ≡ false = ground (arith, at_record, same) in
    let fits = in_range previous r t made in ground (arith, fits, no, once_more)
