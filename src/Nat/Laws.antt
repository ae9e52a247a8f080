-- ===== src/Nat/Laws.antt =====
-- About the class `Nat` of lib/nat.js: sightings, and the classification of the samples.
use hyperdht.Prelude.{
  ℕ, zero, suc, ◌+◌, ◌≤◌, ◌≡◌, refl, Bool, true, false, not, ◌&&◌, ◌||◌, Option, none, some, List,
  [], ◌∷◌, ltb, leb, ◌==◌, get_elem?, arith, Bool-cases, inl, inr, ap, transport,
}
use hyperdht.Nat.Samples.{
  Sample, total_hits, top, IsSorted, add_sample-IsSorted, total_hits-add_sample,
}
use hyperdht.Nat.{
  Nat, Firewall, Address, decide_firewall, update_firewall, update, add, counted, with_firewall,
  then_addresses, then_resolve, forget_open, visit,
}

-- A call that returns, and what holds of its result.
abbrev pub Returns {ℓ} : {A : Type ℓ} → (A → Type 0) → Option A → Type 0
Returns P none = ⊥
Returns P (some a) = P a

-- Both lists are sorted and hold one hit for each sighting.
abbrev pub IsValid : Nat → Type 0
IsValid n =
    IsSorted n.samples_host
    × IsSorted n.samples_full
    × (total_hits n.samples_host ≡ n.sampled)
    × (total_hits n.samples_full ≡ n.sampled)

decide_firewall-Returns :
    (sampled : ℕ) (hosts samples : List Sample) (old : Firewall)
    → 3 ≤ sampled
    → total_hits samples ≡ sampled
    → Returns (λ _. Unit {0}) (decide_firewall sampled hosts samples old)
unfolding decide_firewall total_hits
decide_firewall-Returns sampled hosts [] old h e = ground arith
decide_firewall-Returns sampled hosts (first ∷ []) old h e = ground arith
decide_firewall-Returns sampled hosts (first ∷ second ∷ rest) old h e = ground arith

with_firewall-IsValid :
    (n : Nat) (f : Option Firewall)
    → IsValid n
    → Returns (λ _. Unit {0}) f
    → Returns IsValid (with_firewall n f)
with_firewall-IsValid n none v r = r
with_firewall-IsValid n (some f) v r = v

update_firewall-IsValid :
    (firewalled : Bool) (n : Nat) → IsValid n → Returns IsValid (update_firewall firewalled n)
unfolding update_firewall
update_firewall-IsValid false n v = v
update_firewall-IsValid true n v = elim (Bool-cases (ltb n.sampled 3)) [
  | inl h ↦ ground arith
  | inr h ↦
      let kept =
        with_firewall-IsValid n (decide_firewall n.sampled n.samples_host n.samples_full n.firewall)
          v
          (decide_firewall-Returns n.sampled n.samples_host n.samples_full n.firewall (ground arith)
            v.3) in
      ground arith
]

then_addresses-IsValid : (n : Option Nat) → Returns IsValid n → Returns IsValid (then_addresses n)
then_addresses-IsValid none r = r
then_addresses-IsValid (some n) r = r

then_resolve-IsValid : (n : Option Nat) → Returns IsValid n → Returns IsValid (then_resolve n)
then_resolve-IsValid none r = r
then_resolve-IsValid (some n) r = r

update-IsValid : (firewalled : Bool) (n : Nat) → IsValid n → Returns IsValid (update firewalled n)
unfolding update
update-IsValid false n v =
    then_addresses-IsValid (update_firewall false n) (update_firewall-IsValid false n v)
update-IsValid true n v =
    then_addresses-IsValid (update_firewall true (record n { firewall = forget_open n.firewall }))
      (update_firewall-IsValid true (record n { firewall = forget_open n.firewall }) v)

counted-IsValid : (addr from : Address) (n : Nat) → IsValid n → IsValid (counted addr from n)
counted-IsValid addr from n (hosts, full, count_hosts, count_full) = (
  add_sample-IsSorted n.samples_host addr.host 0 hosts,
  add_sample-IsSorted n.samples_full addr.host addr.port full,
  omega (arith, total_hits-add_sample n.samples_host addr.host 0),
  omega (arith, total_hits-add_sample n.samples_full addr.host addr.port),
)

-- For every sampler that is valid, that is, whose two lists of samples are sorted by their hits and
-- count one hit for each sighting: `add` does not throw, and what it leaves is valid.
pub add-IsValid :
    (firewalled : Bool) (addr from : Address) (n : Nat)
    → IsValid n
    → Returns IsValid (add firewalled addr from n)
unfolding add
add-IsValid firewalled addr from n v =
    let v1 = counted-IsValid addr from n v in
    elim (Bool-cases (n.visited from.host from.port == 2)) [
      | inl h ↦ ground arith
      | inr h ↦ elim (Bool-cases ((leb 3 (n.sampled + 1) || not firewalled) && not n.frozen)) [
        | inl g ↦
            let r =
              then_resolve-IsValid (update firewalled (counted addr from n))
                (update-IsValid firewalled (counted addr from n) v1) in
            ground arith
        | inr g ↦ let r = then_resolve-IsValid (some (counted addr from n)) v1 in ground arith
      ]
    ]

abbrev Keeps : (ℕ → ℕ → ℕ) → Option Nat → Type 0
Keeps visited none = Unit
Keeps visited (some m) = m.visited ≡ visited

with_firewall-Keeps : (n : Nat) (f : Option Firewall) → Keeps n.visited (with_firewall n f)
with_firewall-Keeps n none = tt
with_firewall-Keeps n (some f) = refl

update_firewall-Keeps :
    (firewalled : Bool) (n : Nat) → Keeps n.visited (update_firewall firewalled n)
unfolding update_firewall
update_firewall-Keeps false n = refl
update_firewall-Keeps true n = elim (Bool-cases (ltb n.sampled 3)) [
  | inl h ↦ ground arith
  | inr h ↦
      let kept =
        with_firewall-Keeps n
          (decide_firewall n.sampled n.samples_host n.samples_full n.firewall) in
      ground arith
]

then_addresses-Keeps : (v : ℕ → ℕ → ℕ) (n : Option Nat) → Keeps v n → Keeps v (then_addresses n)
then_addresses-Keeps v none k = tt
then_addresses-Keeps v (some n) k = k

then_resolve-Keeps : (v : ℕ → ℕ → ℕ) (n : Option Nat) → Keeps v n → Keeps v (then_resolve n)
then_resolve-Keeps v none k = tt
then_resolve-Keeps v (some n) k = k

update-Keeps : (firewalled : Bool) (n : Nat) → Keeps n.visited (update firewalled n)
unfolding update
update-Keeps false n =
    then_addresses-Keeps n.visited (update_firewall false n) (update_firewall-Keeps false n)
update-Keeps true n =
    let m = record n { firewall = forget_open n.firewall } in
    then_addresses-Keeps n.visited (update_firewall true m) (update_firewall-Keeps true m)

add-Keeps :
    (firewalled : Bool) (addr from : Address) (n : Nat)
    → (n.visited from.host from.port == 2) ≡ false
    → Keeps (visit n.visited from) (add firewalled addr from n)
unfolding add
add-Keeps firewalled addr from n h =
    let c = counted addr from n in
    elim (Bool-cases ((leb 3 (n.sampled + 1) || not firewalled) && not n.frozen)) [
      | inl g ↦
          let r =
            then_resolve-Keeps (visit n.visited from) (update firewalled c)
              (update-Keeps firewalled c) in
          ground arith
      | inr g ↦ let r = then_resolve-Keeps (visit n.visited from) (some c) refl in ground arith
    ]

-- A sighting that `add` has handled leaves its node as heard.
add-visited :
    (firewalled : Bool) (addr from : Address) (n m : Nat)
    → add firewalled addr from n ≡ some m
    → m.visited from.host from.port ≡ 2
unfolding add
add-visited firewalled addr from n m e = elim (Bool-cases (n.visited from.host from.port == 2)) [
  | inl h ↦ ground arith
  | inr h ↦
      let kept =
        transport (ap (Keeps (visit n.visited from)) e) (add-Keeps firewalled addr from n h) in
      let same = ap (λ v. v from.host from.port) kept in ground arith
]

-- For every sampler: once `add` has returned for a node, every further sighting by that node changes
-- nothing, whatever address it saw.
pub add-once :
    (firewalled still : Bool) (addr other from : Address) (n m : Nat)
    → add firewalled addr from n ≡ some m
    → add still other from m ≡ some m
unfolding add
add-once firewalled still addr other from n m e =
    let heard = add-visited firewalled addr from n m e in ground arith

top-IsMaximum :
    (samples : List Sample) (i : ℕ) (s : Sample)
    → IsSorted samples
    → get_elem? samples i ≡ some s
    → s.hits ≤ top samples
top-IsMaximum [] i s h e = absurd (ground arith)
top-IsMaximum (x ∷ rest) zero s h e = ground arith
top-IsMaximum (x ∷ []) (suc i) s h e = absurd (ground arith)
top-IsMaximum (x ∷ y ∷ rest) (suc i) s h e = ground (arith, top-IsMaximum (y ∷ rest) i s h.1 e)

decide_firewall-three :
    (sampled : ℕ) (hosts samples : List Sample) (old : Firewall)
    → 3 ≤ top samples
    → decide_firewall sampled hosts samples old ≡ some Firewall.consistent
unfolding decide_firewall
decide_firewall-three sampled hosts [] old h = absurd (omega arith)
decide_firewall-three sampled hosts (x ∷ []) old h = ground arith
decide_firewall-three sampled hosts (x ∷ y ∷ rest) old h = ground arith

-- For every valid sampler behind a firewall with three or more sightings: once some address has been
-- seen three times, wherever it stands among the samples, `_updateFirewall` decides CONSISTENT.
pub update_firewall-consistent :
    (n : Nat) (i : ℕ) (s : Sample)
    → IsValid n
    → 3 ≤ n.sampled
    → get_elem? n.samples_full i ≡ some s
    → 3 ≤ s.hits
    → update_firewall true n ≡ some (record n { firewall = Firewall.consistent })
unfolding update_firewall
update_firewall-consistent n i s v h e hits = ground (
  arith,
  top-IsMaximum n.samples_full i s v.1 e,
  decide_firewall-three n.sampled n.samples_host n.samples_full n.firewall,
)
