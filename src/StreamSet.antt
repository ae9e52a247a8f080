-- ===== src/StreamSet.antt =====
-- lib/raw-stream-set.js: the class `RawStreamSet`, a hash table of the raw streams of a socket. A
-- stream is its id, and the table is keyed by the low bits of ids. What `Math.random` draws is an
-- argument, as far as it is drawn. Streams are created and closed by the package udx-native.
pub mod Laws
pub mod Run
mod Tests
use Prim.Native.Nat.{bit_and}
use hyperdht.Prelude.{
  ℕ, ◌+◌, ◌*◌, ◌≤◌, Bool, Option, none, some, List, [], ◌∷◌, ◌++◌, leb, ◌==◌, if◌then◌else◌, length,
}
use hyperdht.Prelude.Assoc.{has, delete}
use hyperdht.Dht.{◌>>=◌}

pub record StreamSet : Type 0 where
  pub prefix : ℕ
  pub streams : List (ℕ × ℕ)

-- `constructor(dht)`
unfoldable pub construct : StreamSet
construct = record { prefix = 15; streams = [] }

-- `this._streams.size`
abbrev pub size : StreamSet → ℕ
size s = length s.streams

-- `Map.set`, which keeps the place of a key.
abbrev pub set : ℕ → ℕ → List (ℕ × ℕ) → List (ℕ × ℕ)
set k v [] = (k, v) ∷ []
set k v ((j, w) ∷ m) = if j == k then (j, v) ∷ m else (j, w) ∷ set k v m

-- The loop of `add` that draws an id whose place is free; none where the draws are used up.
unfoldable pub draw : List ℕ → StreamSet → Option ℕ
draw [] s = none
draw (id ∷ rest) s =
    let later = draw rest s in if has (bit_and id s.prefix) s.streams then later else some id

-- The loop that moves the streams to their places under a longer prefix.
unfoldable pub move : ℕ → List (ℕ × ℕ) → List (ℕ × ℕ) → List (ℕ × ℕ)
move prefix [] next = next
move prefix ((k, id) ∷ rest) next = move prefix rest (set (bit_and id prefix) id next)

unfoldable pub grow : StreamSet → StreamSet
unfolding move
grow s =
    if leb s.prefix (2 * size s)
    then record { prefix = 2 * s.prefix + 1; streams = move (2 * s.prefix + 1) s.streams [] }
    else s

abbrev pub put : ℕ → StreamSet → StreamSet
put id s = record s { streams = set (bit_and id s.prefix) id s.streams }

-- `add(opts)`, with the id of the stream that it returns.
unfoldable pub add : List ℕ → StreamSet → Option (ℕ × StreamSet)
unfolding draw grow
add draws s = do id ← draw draws s; some (id, put id (grow s))

-- `onclose` of the stream of an id.
unfoldable pub close : ℕ → StreamSet → StreamSet
close id s = record s { streams = delete (bit_and id s.prefix) s.streams }

-- What the iterator returns.
abbrev pub values : List (ℕ × ℕ) → List ℕ
values [] = []
values ((k, id) ∷ rest) = id ∷ values rest
