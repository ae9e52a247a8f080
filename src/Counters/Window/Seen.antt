-- ===== src/Counters/Window/Seen.antt =====
-- An independent description of `DatagramReplayWindow` of lib/private/counters.js, without the
-- bitmap: the list of the counters accepted so far.
use hyperdht.Prelude.{
  ℕ, ◌+◌, ◌≤◌, ◌<◌, max, ◌≡◌, refl, Bool, true, false, not, ◌&&◌, ◌||◌, Option, none, some, List,
  [], ◌∷◌, inl, inr, arith, ltb, ◌==◌, if◌then◌else◌, Option-cases, All,
}
use hyperdht.Errors.{Result, ok, err, counter_exhausted, replay, ◌>>=◌}
use hyperdht.Values.{Value}
use hyperdht.Counters.{counter_value}

unfoldable pub contains : List ℕ → ℕ → Bool
contains [] c = false
contains (x ∷ xs) c = x == c || contains xs c

-- No counter was accepted twice.
abbrev pub Once : List ℕ → Type 0
Once [] = Unit
Once (x ∷ xs) = (contains xs x ≡ false) × Once xs

-- A counter is fresh: it was not accepted, and it lies less than `window` below the highest.
unfoldable pub is_fresh : ℕ → Option ℕ → List ℕ → ℕ → Bool
is_fresh window none seen c = true
is_fresh window (some h) seen c = ltb h (c + window) && not (contains seen c)

pub is_fresh-parts :
    (window h c : ℕ) (seen : List ℕ)
    → is_fresh window (some h) seen c ≡ true
    → (h < c + window) × (contains seen c ≡ false)
unfolding is_fresh
is_fresh-parts window h c seen e = ground arith

pub contains_above :
    (seen : List ℕ) (h c : ℕ) → All (λ x. x ≤ h) seen → h < c → contains seen c ≡ false
unfolding contains
contains_above [] h c a l = refl
contains_above (x ∷ xs) h c a l = ground (arith, contains_above xs h c a.1)

pub All-mono : (seen : List ℕ) (h k : ℕ) → h ≤ k → All (λ x. x ≤ h) seen → All (λ x. x ≤ k) seen
All-mono [] h k l a = tt
All-mono (x ∷ xs) h k l a = (omega arith, All-mono xs h k l a.1)

-- The highest accepted counter.
unfoldable pub highest_of : List ℕ → Option ℕ
highest_of [] = none
highest_of (x ∷ xs) = some (elim (highest_of xs) [ none ↦ x | some h ↦ max x h ])

pub highest_of-none : (seen : List ℕ) → highest_of seen ≡ none → seen ≡ []
unfolding highest_of
highest_of-none [] e = refl
highest_of-none (x ∷ xs) e = cc

pub highest_of_bound : (seen : List ℕ) (h : ℕ) → highest_of seen ≡ some h → All (λ x. x ≤ h) seen
unfolding highest_of
highest_of_bound [] h e = tt
highest_of_bound (x ∷ xs) h e = elim (Option-cases (highest_of xs)) [
  | inl none_left ↦ rw (highest_of-none xs none_left) (ground arith, tt)
  | inr (k, found) ↦ ground (arith, All-mono xs k h, highest_of_bound xs k found)
]

pub contains-highest_of :
    (seen : List ℕ) (h : ℕ) → highest_of seen ≡ some h → contains seen h ≡ true
unfolding highest_of contains
contains-highest_of [] h e = cc
contains-highest_of (x ∷ xs) h e = elim (Option-cases (highest_of xs)) [
  | inl none_left ↦ ground arith
  | inr (k, found) ↦ ground (arith, contains-highest_of xs k found)
]

-- What `acceptAuthenticated(v)` owes after the counters `seen`: the counter that it accepts.
abbrev pub decide_counter : ℕ → ℕ → List ℕ → ℕ → Result ℕ
decide_counter window maximum seen c =
    if contains seen maximum
    then err counter_exhausted
    else if is_fresh window (highest_of seen) seen c
    then ok c
    else err replay

unfoldable pub decide : ℕ → ℕ → List ℕ → Value → Result ℕ
decide window maximum seen v = do c ← counter_value v maximum; decide_counter window maximum seen c

abbrev pub note : List ℕ → Result ℕ → List ℕ
note seen (ok c) = c ∷ seen
note seen (err e) = seen

abbrev pub reply : Result ℕ → Result Bool
reply (ok c) = ok true
reply (err e) = err e

unfoldable pub decide_run : ℕ → ℕ → List ℕ → List Value → List (Result Bool)
decide_run window maximum seen [] = []
decide_run window maximum seen (v ∷ vs) =
    let r = decide window maximum seen v in reply r ∷ decide_run window maximum (note seen r) vs
