-- ===== src/StreamSet/Run.antt =====
-- About the class `RawStreamSet` of lib/raw-stream-set.js: what happens to a set of streams.
use Prim.Native.Nat.{bit_and}
use hyperdht.Prelude.{
  ℕ, suc, ◌*◌, ◌≤◌, ◌≡◌, refl, sym, ap, transport, ◌∙◌, true, false, some, List, [], ◌∷◌, ◌++◌,
  length, arith, ◌||◌, ◌==◌, Option-cases, inl, inr,
}
use hyperdht.Prelude.Assoc.{has, delete, Distinct, Distinct-delete}
use hyperdht.Dht.{if_lem}
use hyperdht.StreamSet.{StreamSet, construct, size, draw, grow, put, add, close, values}
use hyperdht.StreamSet.Laws.{
  table, Represents, member, without, values-table, length-table, grow-HasRoom, put-Represents,
  draw_free, free_member, delete-table, length-without,
}

-- A stream that is added gets an id that no other has, and stands for the last one of the list.
add-Represents :
    (ids draws : List ℕ) (id : ℕ) (s t : StreamSet)
    → Represents ids s
    → add draws s ≡ some (id, t)
    → Represents (ids ++ id ∷ []) t × (member id ids ≡ false)
unfolding add
add-Represents ids draws id s t r e = elim (Option-cases (draw draws s)) [
  | inl none_left ↦ absurd (ground (arith, e, none_left))
  | inr (x, drawn) ↦
      let same : x ≡ id = ground (arith, e, drawn) in
      let made : put x (grow s) ≡ t = ground (arith, e, drawn) in
      let free : has (bit_and x s.prefix) (table s.prefix ids) ≡ false =
        ap (has (bit_and x s.prefix)) (sym r.1) ∙ draw_free draws s x drawn in
      let next = put-Represents ids x (grow s) (grow-HasRoom ids x s r free) in
      (
        transport (ap (λ y. Represents (ids ++ y ∷ []) t) same)
            (transport (ap (Represents (ids ++ x ∷ [])) made) next),
        ap (λ y. member y ids) (sym same) ∙ free_member s.prefix x ids free,
      )
]

close-Represents :
    (ids : List ℕ) (id : ℕ) (s : StreamSet)
    → Represents ids s
    → member id ids ≡ true
    → Represents (without id ids) (close id s)
unfolding close
close-Represents ids id s r h =
    let p = s.prefix in
    let gone = delete-table p id ids r.2 h in
    (
      r.0,
      ap (delete (bit_and id p)) r.1 ∙ gone,
      transport (ap Distinct gone) (Distinct-delete (bit_and id p) (table p ids) r.2),
      omega (arith, length-without id ids h, r.3),
    )

-- The sets of streams that calls on a new set lead to, each with the ids in its history: an id is
-- appended when `add` returns its stream, whatever is drawn, and taken out when its stream closes.
pub data Reached : StreamSet → List ℕ → Type 0 where
  empty : Reached construct []
  adds :
      {s t : StreamSet} {ids : List ℕ} (draws : List ℕ) (id : ℕ)
      → Reached s ids
      → add draws s ≡ some (id, t)
      → Reached t (ids ++ id ∷ [])
  closes :
      {s : StreamSet} {ids : List ℕ} (id : ℕ)
      → Reached s ids
      → member id (values s.streams) ≡ true
      → Reached (close id s) (without id ids)

live_member :
    (ids : List ℕ) (id : ℕ) (s : StreamSet)
    → Represents ids s
    → member id (values s.streams) ≡ true
    → member id ids ≡ true
live_member ids id s r h = ap (member id) (sym (ap values r.1 ∙ values-table s.prefix ids)) ∙ h

-- A list in which no id stands twice.
abbrev pub IsUnique : List ℕ → Type 0
IsUnique [] = Unit
IsUnique (id ∷ rest) = (member id rest ≡ false) × IsUnique rest

member-append : (x id : ℕ) (ids : List ℕ) → member x (ids ++ id ∷ []) ≡ (member x ids || x == id)
member-append x id [] = ground arith
member-append x id (y ∷ ids) = ground (arith, member-append x id ids)

member-without :
    (x id : ℕ) (ids : List ℕ) → member x ids ≡ false → member x (without id ids) ≡ false
member-without x id [] h = refl
member-without x id (y ∷ ids) h = ground (arith, h, member-without x id ids)

IsUnique-append :
    (ids : List ℕ) (id : ℕ) → IsUnique ids → member id ids ≡ false → IsUnique (ids ++ id ∷ [])
IsUnique-append [] id h e = (refl, tt)
IsUnique-append (x ∷ ids) id h e =
    (ground (arith, h, e, member-append x id ids), IsUnique-append ids id h.1 (ground (arith, e)))

IsUnique-without : (ids : List ℕ) (id : ℕ) → IsUnique ids → IsUnique (without id ids)
IsUnique-without [] id h = tt
IsUnique-without (x ∷ ids) id h =
    if_lem IsUnique (x == id) ids (x ∷ without id ids) (λ e. h.1)
      (λ e. (member-without x id ids h.0, IsUnique-without ids id h.1))

Reached-Represents :
    (s : StreamSet) (ids : List ℕ) → Reached s ids → Represents ids s × IsUnique ids
unfolding construct
Reached-Represents s ids empty = (((3, refl), refl, tt, omega arith), tt)
Reached-Represents s ids (adds {ids = before} draws id earlier e) =
    let r = Reached-Represents _ before earlier in
    let next = add-Represents before draws id _ s r.0 e in
    (next.0, IsUnique-append before id r.1 next.1)
Reached-Represents s ids (closes {ids = before} id earlier h) =
    let r = Reached-Represents _ before earlier in
    let live = live_member before id _ r.0 h in
    (close-Represents before id _ r.0 live, IsUnique-without before id r.1)

-- For every set that calls on a new set lead to, whatever is drawn and whichever streams close: the
-- iterator returns exactly the ids that were added and have not been closed, in the order in which
-- they were added, and none of them twice; and at most half of the places under the prefix are taken.
pub values-Reached :
    (s : StreamSet) (ids : List ℕ)
    → Reached s ids
    → (values s.streams ≡ ids) × IsUnique ids × (2 * size s ≤ suc s.prefix)
values-Reached s ids steps =
    let r = Reached-Represents s ids steps in
    let long : size s ≡ length ids = ap length r.0.1 ∙ length-table s.prefix ids in
    (ap values r.0.1 ∙ values-table s.prefix ids, r.1, omega (arith, long, r.0.3))
