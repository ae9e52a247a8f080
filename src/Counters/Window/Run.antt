-- ===== src/Counters/Window/Run.antt =====
-- Histories of a replay window: a list of calls of `acceptAuthenticated` on any values.
use hyperdht.Prelude.{
  ℕ, ◌≡◌, refl, ap, ap₂, ◌∙◌, Bool, true, false, List, [], ◌∷◌, inl, inr, arith, Option-cases,
}
use hyperdht.Prelude.Int.{pos}
use hyperdht.Errors.{Result, ok, err}
use hyperdht.Values.{Value, bigint, Options}
use hyperdht.Counters.Window.{
  Window, WindowOptions, construct, accept_after, accept_counter, accept,
}
use hyperdht.Counters.Window.Seen.{
  contains, Once, highest_of, highest_of-none, is_fresh-parts, is_fresh, decide, note, reply,
  decide_run,
}
use hyperdht.Counters.Window.Refine.{Inv, accept-decide}

-- What each call of a history returns or throws.
pub accept_run : Window → List Value → List (Result Bool)
accept_run w [] = []
accept_run w (x ∷ xs) = let (w', r) = accept w x in r ∷ accept_run w' xs

-- The counters of the calls that returned, newest first, after those of `seen`.
abbrev pub taking : List ℕ → Value → Result Bool → List ℕ
taking seen (bigint (pos n)) (ok r) = n ∷ seen
taking seen _ _ = seen

pub taken : List ℕ → Window → List Value → List ℕ
taken seen w [] = seen
taken seen w (x ∷ xs) = let (w', r) = accept w x in taken (taking seen x r) w' xs

window-accept : (w : Window) (x : Value) → (accept w x).0.window ≡ w.window
unfolding accept accept_counter accept_after
window-accept w x = ground arith

maximum-accept : (w : Window) (x : Value) → (accept w x).0.maximum ≡ w.maximum
unfolding accept accept_counter accept_after
maximum-accept w x = ground arith

construct-Inv : (given : Options WindowOptions) (w : Window) → construct given ≡ ok w → Inv w []
unfolding construct contains highest_of
construct-Inv given w h = record {
  size = ground arith;
  mask = ground arith;
  highest = ground arith;
  closed = ground arith;
  bounded = λ k e. cc;
  digits = λ k e. cc;
}

decide_run_lem :
    (w : Window) (seen : List ℕ) (xs : List Value)
    → Inv w seen
    → accept_run w xs ≡ decide_run w.window w.maximum seen xs
unfolding accept_run decide_run
decide_run_lem w seen [] v = refl
decide_run_lem w seen (x ∷ xs) v =
    let d = decide w.window w.maximum seen x in
    let (same, next) = accept-decide w seen x v in
    ap₂ ◌∷◌ same (
      decide_run_lem (accept w x).0 (note seen d) xs next
      ∙ ap₂ (λ a b. decide_run a b (note seen d) xs) (window-accept w x) (maximum-accept w x))

taking-note :
    (w : Window) (seen : List ℕ) (x : Value)
    → (c : Result ℕ) → decide w.window w.maximum seen x ≡ c
    → taking seen x (reply c) ≡ note seen c
unfolding decide
taking-note w seen (bigint (pos n)) (ok c) e = ground arith
taking-note w seen x c e = ground arith

decide-fresh :
    (w : Window) (seen : List ℕ) (x : Value) (c : ℕ)
    → Inv w seen
    → decide w.window w.maximum seen x ≡ ok c
    → contains seen c ≡ false
unfolding decide contains
decide-fresh w seen x c v e =
    let fresh : is_fresh w.window (highest_of seen) seen c ≡ true = ground arith in
    elim (Option-cases (highest_of seen)) [
      | inl empty ↦ rw (highest_of-none seen empty) refl
      | inr (h, found) ↦ (is_fresh-parts w.window h c seen (rw found at fresh)).1
    ]

note-Once :
    (w : Window) (seen : List ℕ) (x : Value) (d : Result ℕ)
    → Inv w seen
    → Once seen
    → decide w.window w.maximum seen x ≡ d
    → Once (note seen d)
note-Once w seen x (ok c) v o e = (decide-fresh w seen x c v e, o)
note-Once w seen x (err f) v o e = o

taken-Once :
    (w : Window) (seen : List ℕ) (xs : List Value) → Inv w seen → Once seen → Once (taken seen w xs)
unfolding taken
taken-Once w seen [] v o = o
taken-Once w seen (x ∷ xs) v o =
    let (same, next) = accept-decide w seen x v in
    let kept : taking seen x (accept w x).1 ≡ note seen (decide w.window w.maximum seen x) =
      ap (taking seen x) same ∙ taking-note w seen x _ refl in
    rw kept (taken-Once (accept w x).0 _ xs next (note-Once w seen x _ v o refl))

-- For every replay window that `new DatagramReplayWindow` returns and every list of values passed to
-- `acceptAuthenticated`, each call returns or throws what the promise says: COUNTER_INVALID for
-- a value that is no counter up to the maximum, COUNTER_EXHAUSTED once the maximum was accepted, and
-- otherwise true if the counter is new and less than the window size below the highest accepted
-- one, and REPLAY if not.
pub accept_run-decide_run :
    (given : Options WindowOptions) (w : Window) (xs : List Value)
    → construct given ≡ ok w
    → accept_run w xs ≡ decide_run w.window w.maximum [] xs
accept_run-decide_run given w xs made = decide_run_lem w [] xs (construct-Inv given w made)

-- For every replay window that `new DatagramReplayWindow` returns and every list of values passed to
-- `acceptAuthenticated`, the counters of the calls that returned are pairwise different.
pub accept-Once :
    (given : Options WindowOptions) (w : Window) (xs : List Value)
    → construct given ≡ ok w
    → Once (taken [] w xs)
accept-Once given w xs made = taken-Once w [] xs (construct-Inv given w made) tt
