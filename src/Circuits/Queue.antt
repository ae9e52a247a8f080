-- ===== src/Circuits/Queue.antt =====
-- About the class `CircuitCreditPool` of lib/private/private-peer-controller.js: the queue of the
-- legs that ask for credit.
use hyperdht.Prelude.{
  ℕ, ◌≡◌, refl, sym, ap, ◌∙◌, Bool, true, false, ◌||◌, some, List, [], ◌∷◌, ◌++◌, ltb, ◌==◌,
  if◌then◌else◌, arith, All, Bool-cases, inl, inr,
}
use hyperdht.Prelude.Assoc.{lookup, has, delete, assign, Distinct}
use hyperdht.Circuits.{Leg, without}

abbrev pub elem : ℕ → List ℕ → Bool
elem o [] = false
elem o (q ∷ rest) = o == q || elem o rest

-- A leg that asks for credit stands in the queue.
abbrev pub Queued : List ℕ → ℕ × Leg → Type 0
Queued pending (owner, leg) = (leg.wanted == 0 || elem owner pending) ≡ true

pub elem-append : (o : ℕ) (xs ys : List ℕ) → elem o (xs ++ ys) ≡ (elem o xs || elem o ys)
elem-append o [] ys = refl
elem-append o (x ∷ xs) ys = ground (arith, elem-append o xs ys)

pub elem-without :
    (o owner : ℕ) (q : List ℕ) → (o == owner) ≡ false → elem o (without owner q) ≡ elem o q
elem-without o owner [] h = refl
elem-without o owner (x ∷ q) h = ground (arith, elem-without o owner q h)

-- What keeps the places of the others in the queue.
abbrev pub Keeps : ℕ → List ℕ → List ℕ → Type 0
Keeps owner q r = (o : ℕ) → (o == owner) ≡ false → elem o q ≡ true → elem o r ≡ true

pub Queued-others :
    (owner : ℕ) (q r : List ℕ) (m : List (ℕ × Leg))
    → All (Queued q) m
    → Keeps owner q r
    → has owner m ≡ false
    → All (Queued r) m
Queued-others owner q r [] a keep h = tt
Queued-others owner q r ((o, l) ∷ m) a keep h =
    let rest = Queued-others owner q r m a.1 keep (ground arith) in
    let differ : (o == owner) ≡ false = ground arith in
    let kept = keep o differ in (ground (arith, a.0, kept), rest)

pub Queued-assign :
    (owner : ℕ) (leg : Leg) (q r : List ℕ) (m : List (ℕ × Leg))
    → All (Queued q) m
    → Keeps owner q r
    → Queued r (owner, leg)
    → Distinct m
    → All (Queued r) (assign owner leg m)
Queued-assign owner leg q r [] a keep h d = tt
Queued-assign owner leg q r ((o, l) ∷ m) a keep h d = elim (Bool-cases (o == owner)) [
  | inl e ↦ let rest = Queued-others owner q r m a.1 keep (ground arith) in ground arith
  | inr e ↦
      let rest = Queued-assign owner leg q r m a.1 keep h d.1 in
      let kept = keep o e in ground (arith, a.0, kept)
]

pub Queued-delete :
    (owner : ℕ) (q r : List ℕ) (m : List (ℕ × Leg))
    → All (Queued q) m
    → Keeps owner q r
    → Distinct m
    → All (Queued r) (delete owner m)
Queued-delete owner q r [] a keep d = tt
Queued-delete owner q r ((o, l) ∷ m) a keep d = elim (Bool-cases (o == owner)) [
  | inl e ↦ let rest = Queued-others owner q r m a.1 keep (ground arith) in ground arith
  | inr e ↦
      let rest = Queued-delete owner q r m a.1 keep d.1 in
      let kept = keep o e in ground (arith, a.0, kept)
]

-- The head of the queue is taken off, where it asks for nothing or is gone.
pub Queued-pop :
    (owner : ℕ) (q r : List ℕ) (m : List (ℕ × Leg))
    → All (Queued q) m
    → Keeps owner q r
    → ((leg : Leg) → lookup owner m ≡ some leg → (leg.wanted == 0) ≡ true)
    → Distinct m
    → All (Queued r) m
Queued-pop owner q r [] a keep h d = tt
Queued-pop owner q r ((o, l) ∷ m) a keep h d = elim (Bool-cases (o == owner)) [
  | inl e ↦
      let rest = Queued-others owner q r m a.1 keep (ground arith) in
      let zero_wanted = h l (ground arith) in ground (arith, rest, zero_wanted)
  | inr e ↦
      let rest =
        Queued-pop owner q r m a.1 keep (λ leg found. h leg (ground (arith, found, e))) d.1 in
      let kept = keep o e in ground (arith, a.0, kept)
]

pub Keeps-pop : (owner : ℕ) (q rest : List ℕ) → q ≡ owner ∷ rest → Keeps owner q rest
Keeps-pop owner q rest same o differ h =
    let there : elem o (owner ∷ rest) ≡ true = sym (ap (elem o) same) ∙ h in
    ground (arith, there, differ)

abbrev pub back : ℕ → ℕ → List ℕ → List ℕ
back owner left rest = if ltb 0 left then rest ++ owner ∷ [] else rest

pub elem-back :
    (owner left : ℕ) (rest : List ℕ) → (left == 0 || elem owner (back owner left rest)) ≡ true
elem-back owner left rest = ground (arith, elem-append owner rest (owner ∷ []))

pub Keeps-back :
    (owner left : ℕ) (q rest : List ℕ) → q ≡ owner ∷ rest → Keeps owner q (back owner left rest)
Keeps-back owner left q rest same o differ h =
    let there = Keeps-pop owner q rest same o differ h in
    ground (arith, there, elem-append o rest (owner ∷ []))
