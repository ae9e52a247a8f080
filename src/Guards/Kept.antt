-- ===== src/Guards/Kept.antt =====
-- About the class `PinnedGuards` of lib/private/private-peer-controller.js: `select` and
-- `failed`.
use hyperdht.Prelude.{
  ℕ, suc, ◌≡◌, refl, sym, ap, transport, ◌∙◌, Bool, true, false, ◌||◌, Option, none, some, List, [],
  ◌∷◌, ◌++◌, length, length-append, ◌==◌, arith, Bool-cases, inl, inr,
}
use hyperdht.Dht.{Buffer, equals, equals-eq, equals_refl, if_lem}
use hyperdht.Guards.{
  Guard, Guards, candidates, candidates_of, is_guard, find, except, mark, if_found, select, rotate,
  fail_current, failed,
}
use hyperdht.Guards.Sets.{
  has_id, Apart, IsGuardSet, is_guard-append, has_id-append, is_guard-except, Apart-except,
  length-except, has_id-except_self, find_id, own_key,
}

if_found_lem :
    (P : Guards → Type 0) (o : Option Guard) (s : Guards) (next : Guard → Guards)
    → P s
    → ((g : Guard) → o ≡ some g → P (next g))
    → P (if_found o s next)
if_found_lem P none s next a b = a
if_found_lem P (some g) s next a b = b g refl

-- The same guards as before, of which none stands twice.
abbrev pub SameGuards : List Guard → List Guard → Type 0
SameGuards l m = IsGuardSet m × ((k : Buffer) → is_guard k m ≡ is_guard k l)

-- A guard that is marked and put in front of the others, or behind them.
front-SameGuards :
    (id : ℕ) (l : List Guard) (g : Guard) (b : Bool)
    → IsGuardSet l
    → find id l ≡ some g
    → SameGuards l (record g { unreachable = b } ∷ except id l)
front-SameGuards id l g b h e =
    let named = find_id id l g e in
    (
      (
        omega (arith, length-except id l g h.1 e, h.0),
        (
          ap (λ i. has_id i (except id l)) named ∙ has_id-except_self id l,
          own_key id l g h.1 e,
          Apart-except id l h.1,
        ),
      ),
      λ k. is_guard-except k id l g h.1 e,
    )

equals_flip : (j k : Buffer) → equals j k ≡ false → equals k j ≡ false
equals_flip j k h = elim (Bool-cases (equals k j)) [
  | inl same ↦
      let keys = ap (equals j) (equals-eq k j same) in
      absurd (ground (arith, h, keys, equals_refl j))
  | inr differ ↦ differ
]

pub Apart-append_one :
    (l : List Guard) (g : Guard)
    → Apart l
    → has_id g.id l ≡ false
    → is_guard g.public_key l ≡ false
    → Apart (l ++ g ∷ [])
Apart-append_one [] g a i k = (refl, refl, tt)
Apart-append_one (h ∷ rest) g a i k =
    let swapped = equals_flip h.public_key g.public_key (ground (arith, k)) in
    (
      ground (arith, a.0, i, has_id-append h.id rest (g ∷ [])),
      ground (arith, a.1, swapped, is_guard-append h.public_key rest (g ∷ [])),
      Apart-append_one rest g a.2 (ground (arith, i)) (ground (arith, k)),
    )

back-SameGuards :
    (id : ℕ) (l : List Guard) (g : Guard) (b : Bool)
    → IsGuardSet l
    → find id l ≡ some g
    → SameGuards l (except id l ++ record g { unreachable = b } ∷ [])
back-SameGuards id l g b h e =
    let named = find_id id l g e in
    let new : Guard = record g { unreachable = b } in
    (
      (
        omega (arith, length-except id l g h.1 e, h.0, length-append (except id l) (new ∷ [])),
        Apart-append_one (except id l) new (Apart-except id l h.1)
            (ap (λ i. has_id i (except id l)) named ∙ has_id-except_self id l)
            (own_key id l g h.1 e),
      ),
      λ k.
          ground
            (arith, is_guard-append k (except id l) (new ∷ []), is_guard-except k id l g h.1 e),
    )

pub select-SameGuards :
    (id : ℕ) (s : Guards)
    → IsGuardSet (candidates s)
    → SameGuards (candidates s) (candidates (select id s))
unfolding select candidates
select-SameGuards id s h =
    if_found_lem
      (λ t.
        SameGuards (candidates_of s.current s.alternates) (candidates_of t.current t.alternates))
      (find id (candidates_of s.current s.alternates)) s _ (h, λ k. refl)
      λ g e. front-SameGuards id (candidates_of s.current s.alternates) g false h e

mark-is_guard : (k : Buffer) (id : ℕ) (l : List Guard) → is_guard k (mark id l) ≡ is_guard k l
mark-is_guard k id [] = refl
mark-is_guard k id (g ∷ rest) = ground (arith, mark-is_guard k id rest)

mark-has_id : (j id : ℕ) (l : List Guard) → has_id j (mark id l) ≡ has_id j l
mark-has_id j id [] = refl
mark-has_id j id (g ∷ rest) = ground (arith, mark-has_id j id rest)

length-mark : (id : ℕ) (l : List Guard) → length (mark id l) ≡ length l
length-mark id [] = refl
length-mark id (g ∷ rest) = ap suc (length-mark id rest)

Apart-mark : (id : ℕ) (l : List Guard) → Apart l → Apart (mark id l)
Apart-mark id [] a = tt
Apart-mark id (g ∷ rest) a = ground (
  arith,
  a.0,
  a.1,
  Apart-mark id rest a.2,
  mark-has_id g.id id rest,
  mark-is_guard g.public_key id rest,
)

rotate-candidates :
    (l : List Guard) (s : Guards) → candidates_of (rotate l s).current (rotate l s).alternates ≡ l
rotate-candidates [] s = refl
rotate-candidates (g ∷ rest) s = refl

fail_current-SameGuards :
    (id : ℕ) (o : Option Guard) (s : Guards)
    → s.current ≡ o
    → IsGuardSet (candidates_of o s.alternates)
    → SameGuards
        (candidates_of o s.alternates)
        (candidates_of (fail_current id o s).current (fail_current id o s).alternates)
fail_current-SameGuards id none s e h =
    transport (ap (λ o. SameGuards [] (candidates_of o s.alternates)) (sym e)) (h, λ k. refl)
fail_current-SameGuards id (some g) s e h =
    let l = g ∷ s.alternates in
    if_lem (λ (t : Guards). SameGuards l (candidates_of t.current t.alternates)) (g.id == id) _ _
      (λ same.
        let behind = except id l ++ record g { unreachable = true } ∷ [] in
        transport (ap (SameGuards l) (sym (rotate-candidates behind s)))
          (back-SameGuards id l g true h (ground (arith, same))))
      λ other. transport (ap (λ o. SameGuards l (candidates_of o (mark id s.alternates))) (sym e)) (
        (
          omega (arith, h.0, length-mark id s.alternates),
          (
            mark-has_id g.id id s.alternates ∙ h.1.0,
            mark-is_guard g.public_key id s.alternates ∙ h.1.1,
            Apart-mark id s.alternates h.1.2,
          ),
        ),
        λ k. ap (λ b. equals g.public_key k || b) (mark-is_guard k id s.alternates),
      )

pub failed-SameGuards :
    (id : ℕ) (s : Guards)
    → IsGuardSet (candidates s)
    → SameGuards (candidates s) (candidates (failed id s))
unfolding failed candidates
failed-SameGuards id s h = fail_current-SameGuards id s.current s refl h
