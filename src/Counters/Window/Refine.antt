-- ===== src/Counters/Window/Refine.antt =====
-- About `acceptAuthenticated` of lib/private/counters.js, compared with the list of Seen.
use Prim.Native.Nat.{bit_and, bit_or}
use native.Mathlib.Nat.{one-le-pow}
use hyperdht.Prelude.{
  ℕ, ◌+◌, ◌-◌, ◌*◌, ◌^◌, ◌≤◌, ◌<◌, not, ℕ_discrete, ◌≡◌, refl, sym, ap, subst, lt→ltb, leb→le,
  le→ltb_false, All, dec_lt, ◌≢◌, ◌⊎◌, ◌∙◌, Bool, true, false, some, none, List, [], ◌∷◌, inl, inr,
  arith, leb, ltb, ◌==◌, Bool-cases, Option-cases,
}
use hyperdht.Prelude.Bits.{bit, bit_and-pow, bit-le-one}
use hyperdht.Errors.{Error, counter_invalid, counter_exhausted, Result, ok, err, replay}
use hyperdht.Prelude.Int.{pos, negsuc}
use hyperdht.Values.{Value, bigint}
use hyperdht.Counters.{counter_value}
use hyperdht.Counters.Window.{Window, accept_after, accept_counter, accept, floor_below}
use hyperdht.Counters.Window.Seen.{
  contains, contains_above, contains-highest_of, is_fresh-parts, is_fresh, highest_of,
  highest_of_bound, decide, decide_counter, highest_of-none, note, reply,
}
use hyperdht.Counters.Window.Laws.{
  Represents, Represents-moved, Represents-far, Represents-first, Represents-set,
}

-- The window `w` after the counters `seen` were accepted.
pub record Inv (w : Window) (seen : List ℕ) : Type 0 where
  pub size : 1 ≤ w.window
  pub mask : w.mask ≡ 2 ^ w.window - 1
  pub highest : w.highest ≡ highest_of seen
  pub closed : w.closed ≡ contains seen w.maximum
  pub bounded : (h : ℕ) → highest_of seen ≡ some h → h ≤ w.maximum
  pub digits : (h : ℕ) → highest_of seen ≡ some h → Represents w.window h w.bitmap seen

bit_test : (b k : ℕ) → (bit_and b (2 ^ k) == 0) ≡ (bit b k == 0)
bit_test b k = elim (ℕ_discrete (bit b k) 0) [
  | yes off ↦ ground (arith, bit_and-pow b k, ap (λ (t : ℕ). t * 2 ^ k) off)
  | no set ↦
      let one : bit b k ≡ 1 = omega (arith, bit-le-one b k) in
      ground (arith, bit_and-pow b k, ap (λ (t : ℕ). t * 2 ^ k) one, one-le-pow k 2)
]

-- A call that accepts and leaves a window that stands for `seen`.
abbrev Accepts : List ℕ → Window × Result Bool → Type 0
Accepts seen (w, r) = (r ≡ ok true) × Inv w seen

Inv-note :
    (w : Window) (seen : List ℕ) (c h : ℕ)
    → 1 ≤ w.window
    → w.mask ≡ 2 ^ w.window - 1
    → highest_of (c ∷ seen) ≡ some h
    → w.highest ≡ some h
    → w.closed ≡ contains (c ∷ seen) w.maximum
    → h ≤ w.maximum
    → Represents w.window h w.bitmap (c ∷ seen)
    → Inv w (c ∷ seen)
Inv-note w seen c h size mask top highest closed bound rep = record {
  size = size;
  mask = mask;
  highest = highest ∙ sym top;
  closed = closed;
  bounded = λ k e. let same : h ≡ k = ground arith in rw (← same) bound;
  digits = λ k e.
      let same : h ≡ k = ground arith in
      subst (λ t. Represents w.window t w.bitmap (c ∷ seen)) same rep;
}

module _ (w : Window) (seen : List ℕ) (h c : ℕ) (v : Inv w seen)
    (e : highest_of seen ≡ some h) where
  -- The digit for a counter at or below the highest.
  seen_digit :
      c ≤ h → h < c + w.window → (bit_and w.bitmap (2 ^ (h - c)) == 0) ≡ not (contains seen c)
  seen_digit low near =
      let back : h - (h - c) ≡ c = omega arith in
      ground (
        arith,
        bit_test w.bitmap (h - c),
        v.digits h e (h - c) (omega arith),
        ap (contains seen) back,
      )

  new_highest : (c' : ℕ) → h < c' → highest_of (c' ∷ seen) ≡ some c'
  unfolding highest_of
  new_highest c' above = ground arith

  same_highest : (c' : ℕ) → c' ≤ h → highest_of (c' ∷ seen) ≡ some h
  unfolding highest_of
  same_highest c' below = ground arith

  accepted_above : h < c → c ≤ w.maximum → Accepts (c ∷ seen) (accept_after c h w)
  unfolding accept_after contains
  accepted_above above within = elim (Bool-cases (leb w.window (c - h))) [
    | inl far ↦
        rw (lt→ltb h c above, far)
          (
            refl,
            Inv-note _ seen c c v.size v.mask (new_highest c above) refl (ground (arith, v.closed))
                within
                (Represents-far w.window h w.bitmap seen c above (leb→le _ _ far)
                  (highest_of_bound seen h e)),
          )
    | inr near ↦
        let rep : Represents w.window c (bit_and (bit_or (w.bitmap * 2 ^ (c - h)) 1) w.mask)
            (c ∷ seen) =
          rw v.mask (
            Represents-moved w.window h w.bitmap seen c above (highest_of_bound seen h e)
              (v.digits h e)) in
        rw (lt→ltb h c above, near)
          (
            refl,
            Inv-note _ seen c c v.size v.mask (new_highest c above) refl (ground (arith, v.closed))
                within rep,
          )
  ]

  accepted_below :
      c ≤ h
      → h < c + w.window
      → contains seen c ≡ false
      → contains seen w.maximum ≡ false
      → c ≢ w.maximum
      → Accepts (c ∷ seen) (accept_after c h w)
  unfolding accept_after contains
  accepted_below below near fresh opened top =
      let floor : ltb c (floor_below w.window h) ≡ false = ground arith in
      rw (le→ltb_false h c below, floor, seen_digit below near ∙ ap not fresh)
        (
          refl,
          Inv-note _ seen c h v.size v.mask (same_highest c below) (v.highest ∙ e)
              (ground (arith, v.closed)) (v.bounded h e)
              (Represents-set w.window h w.bitmap seen c below (v.digits h e)),
        )

  refused :
      is_fresh w.window (some h) seen c ≡ false
      → All (λ x. x ≤ h) seen
      → accept_after c h w ≡ (w, err replay)
  unfolding accept_after is_fresh
  refused stale bound = elim (dec_lt h c) [
    | yes above ↦ ground (arith, contains_above seen h c bound)
    | no below ↦ elim (dec_lt h (c + w.window)) [
      | yes near ↦ ground (arith, seen_digit (omega arith) near)
      | no far ↦ ground arith
    ]
  ]

-- The first counter of an open window.
accepted_first :
    (w : Window) (c : ℕ)
    → Inv w []
    → c ≤ w.maximum
    → w.closed ≡ false
    → w.highest ≡ none
    → Accepts (c ∷ []) (accept_counter c w)
unfolding accept_counter contains highest_of
accepted_first w c v within opened fresh =
    rw (opened, fresh)
      (
        refl,
        Inv-note _ [] c c v.size v.mask refl refl (ground arith) within
            (Represents-first w.window c),
      )

module _ (w : Window) (c : ℕ) (within : c ≤ w.maximum) where
  abbrev Agrees : List ℕ → Window × Result Bool → Result ℕ → Type 0
  Agrees seen (w', r) d = (r ≡ reply d) × Inv w' (note seen d)

  closed_step :
      (seen : List ℕ)
      → Inv w seen
      → contains seen w.maximum ≡ true
      → Agrees seen (accept_counter c w) (decide_counter w.window w.maximum seen c)
  unfolding accept_counter
  closed_step seen v full =
      let shut : accept_counter c w ≡ (w, err counter_exhausted) = ground (arith, v.closed) in
      rw (shut, full) (refl, v)

  after_step :
      (seen : List ℕ) (h : ℕ)
      → Inv w seen
      → contains seen w.maximum ≡ false
      → highest_of seen ≡ some h
      → Agrees seen (accept_counter c w) (decide_counter w.window w.maximum seen c)
  unfolding accept_counter
  after_step seen h v room e =
      let step : accept_counter c w ≡ accept_after c h w = ground (arith, v.closed, v.highest) in
      elim (Bool-cases (is_fresh w.window (some h) seen c)) [
        | inl fresh ↦ rw (step, room, e, fresh) (fresh_step fresh)
        | inr stale ↦
            rw (step, room, e, stale, refused w seen h c v e stale (highest_of_bound seen h e))
              (refl, v)
      ]
    where
      fresh_step :
          is_fresh w.window (some h) seen c ≡ true → Accepts (c ∷ seen) (accept_after c h w)
      fresh_step fresh = elim (dec_lt h c) [
        | yes above ↦ accepted_above w seen h c v e above within
        | no below ↦
            let (near, new) = is_fresh-parts w.window h c seen fresh in
            accepted_below w seen h c v e (omega arith) near new room
              (λ top. ground (arith, v.bounded h e, contains-highest_of seen h e))
      ]

  first_open : Inv w [] → Agrees [] (accept_counter c w) (decide_counter w.window w.maximum [] c)
  unfolding contains is_fresh highest_of
  first_open v = accepted_first w c v within v.closed v.highest

  first_step :
      (seen : List ℕ)
      → Inv w seen
      → seen ≡ []
      → Agrees seen (accept_counter c w) (decide_counter w.window w.maximum seen c)
  first_step seen v e = rw e (first_open (rw e at v))

  counter_step :
      (seen : List ℕ)
      → Inv w seen
      → Agrees seen (accept_counter c w) (decide_counter w.window w.maximum seen c)
  counter_step seen v = elim (Bool-cases (contains seen w.maximum)) [
    | inl full ↦ closed_step seen v full
    | inr room ↦ elim (Option-cases (highest_of seen)) [
      | inl empty ↦ first_step seen v (highest_of-none seen empty)
      | inr (h, e) ↦ after_step seen h v room e
    ]
  ]

pub counter_value_cases :
    (x : Value) (m : ℕ)
    → ((c : ℕ) × (counter_value x m ≡ ok c) × (c ≤ m)) ⊎ ((e : Error) × (counter_value x m ≡ err e))
counter_value_cases (bigint (pos n)) m = elim (dec_lt m n) [
  | yes above ↦ inr (counter_invalid, rw (lt→ltb m n above))
  | no within ↦ inl (n, rw (le→ltb_false m n (omega arith)), omega arith)
]
counter_value_cases (bigint (negsuc n)) m = inr (counter_invalid, refl)
counter_value_cases _ m = inr (counter_invalid, refl)

-- One call of `acceptAuthenticated` does what the promise says, and keeps the correspondence.
pub accept-decide :
    (w : Window) (seen : List ℕ) (x : Value)
    → Inv w seen
    → ((accept w x).1 ≡ reply (decide w.window w.maximum seen x))
      × Inv (accept w x).0 (note seen (decide w.window w.maximum seen x))
unfolding accept decide
accept-decide w seen x v = elim (counter_value_cases x w.maximum) [
  | inl (c, e, within) ↦ rw (e, accept) (counter_step w c within seen v)
  | inr (e, f) ↦ rw (f, accept) (refl, v)
]
