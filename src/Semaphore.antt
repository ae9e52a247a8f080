-- ===== src/Semaphore.antt =====
-- lib/semaphore.js: the class `Semaphore`. A promise is a number that its caller brings, and
-- `settled` and `flushed` log the calls of the promises' resolve functions in their order. The
-- continuations of a promise run later, so that no call happens inside another one.
pub mod Laws
mod Tests
use hyperdht.Prelude.{
  ℕ, zero, suc, Bool, true, false, not, ◌&&◌, ◌||◌, Option, none, some, List, [], ◌∷◌, ◌++◌, ltb,
  ◌==◌, if◌then◌else◌,
}
use hyperdht.Prelude.Int.{ℤ, pos, negsuc}

-- `active` falls below zero when `signal` is called more often than waits succeeded.
pub record Semaphore : Type 0 where
  pub limit : ℕ
  pub active : ℤ
  pub waiting : List ℕ
  pub flushed_promise : Option ℕ
  pub destroyed : Bool
  pub settled : List (ℕ × Bool)
  pub flushed : List (ℕ × Bool)

-- What `wait()` returns.
pub data Waited : Type 0 where
  done destroyed_ : Waited
  promised : ℕ → Waited

unfoldable pub construct : ℕ → Semaphore
construct limit = record {
  limit = limit;
  active = pos 0;
  waiting = [];
  flushed_promise = none;
  destroyed = false;
  settled = [];
  flushed = [];
}

abbrev pub is_below : ℤ → ℕ → Bool
is_below (pos n) limit = ltb n limit
is_below (negsuc n) limit = true

abbrev pub increment : ℤ → ℤ
increment (pos n) = pos (suc n)
increment (negsuc zero) = pos 0
increment (negsuc (suc n)) = negsuc n

abbrev pub decrement : ℤ → ℤ
decrement (pos zero) = negsuc 0
decrement (pos (suc n)) = pos n
decrement (negsuc n) = negsuc (suc n)

abbrev pub is_empty : List ℕ → Bool
is_empty [] = true
is_empty (w ∷ rest) = false

-- `wait()`, with the number of the promise that it may make.
unfoldable pub wait : ℕ → Semaphore → Semaphore × Waited
wait promise s =
    if s.destroyed
    then (s, Waited.destroyed_)
    else if is_below s.active s.limit && is_empty s.waiting
    then (record s { active = increment s.active }, Waited.done)
    else (record s { waiting = s.waiting ++ (promise ∷ []) }, Waited.promised promise)

-- The loop of `signal` over the waiting promises: the active count, those that stay and those that
-- are resolved.
pub record Served : Type 0 where
  pub active : ℤ
  pub waiting : List ℕ
  pub resolved : List (ℕ × Bool)

unfoldable pub serve : ℕ → ℤ → List ℕ → Served
serve limit active [] = record { active = active; waiting = []; resolved = [] }
serve limit active (w ∷ rest) =
    let later = serve limit (increment active) rest in
    if is_below active limit
    then record {
      active = later.active;
      waiting = later.waiting;
      resolved = (w, true) ∷ later.resolved;
    }
    else record { active = active; waiting = w ∷ rest; resolved = [] }

abbrev is_idle : ℤ → Bool
is_idle (pos n) = n == 0
is_idle (negsuc n) = false

-- The end of `signal`.
abbrev pub finish_flush : Semaphore → Option ℕ → Semaphore
finish_flush s none = s
finish_flush s (some promise) =
    if is_idle s.active
    then record s { flushed_promise = none; flushed = s.flushed ++ ((promise, true) ∷ []) }
    else s

-- `signal()`
unfoldable pub signal : Semaphore → Semaphore
unfolding serve
signal s =
    let served = serve s.limit (decrement s.active) s.waiting in
    if s.destroyed
    then s
    else finish_flush
        (record s {
          active = served.active;
          waiting = served.waiting;
          settled = s.settled ++ served.resolved;
        })
        s.flushed_promise

-- `flush()`, with the number of the promise that it may make. It returns none where it resolves at
-- once.
unfoldable pub flush : ℕ → Semaphore → Semaphore × Option ℕ
flush promise s = if s.destroyed || is_idle s.active then (s, none) else elim s.flushed_promise [
  | none ↦ (record s { flushed_promise = some promise }, some promise)
  | some earlier ↦ (s, some earlier)
]

-- The promises from the last one on, resolved with false.
abbrev pub dismissed : List ℕ → List (ℕ × Bool)
dismissed [] = []
dismissed (w ∷ rest) = dismissed rest ++ ((w, false) ∷ [])

abbrev pub dismiss_flush : Option ℕ → List (ℕ × Bool)
dismiss_flush none = []
dismiss_flush (some promise) = (promise, false) ∷ []

-- `destroy()`
unfoldable pub destroy : Semaphore → Semaphore
destroy s = record s {
  destroyed = true;
  active = pos 0;
  waiting = [];
  settled = s.settled ++ dismissed s.waiting;
  flushed = s.flushed ++ dismiss_flush s.flushed_promise;
}
