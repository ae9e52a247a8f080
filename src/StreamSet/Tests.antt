-- ===== src/StreamSet/Tests.antt =====
-- About the class `RawStreamSet` of lib/raw-stream-set.js: a set of two streams.
use hyperdht.Prelude.{suc, ◌*◌, ◌≤◌, ◌≡◌, refl, some, [], ◌∷◌}
use hyperdht.StreamSet.{StreamSet, construct, size, draw, move, grow, add, close, values}
use hyperdht.StreamSet.Run.{Reached, empty, adds, closes, IsUnique, values-Reached}

abbrev one_stream : StreamSet
one_stream = record { prefix = 15; streams = (1, 17) ∷ [] }

abbrev two_streams : StreamSet
two_streams = record { prefix = 15; streams = (1, 17) ∷ (2, 18) ∷ [] }

first_added : add (17 ∷ []) construct ≡ some (17, one_stream)
unfolding construct add draw grow move
first_added = refl

-- The place of 33 is taken by 17, so that the next id is drawn.
second_added : add (33 ∷ 18 ∷ []) one_stream ≡ some (18, two_streams)
unfolding add draw grow move
second_added = refl

abbrev crowd : StreamSet
crowd = record { prefix = 3; streams = (1, 5) ∷ (2, 6) ∷ [] }

-- The table grows, and 5 and 6 move to their places under the longer prefix.
crowd_added :
    add (3 ∷ []) crowd ≡ some (3, record { prefix = 7; streams = (5, 5) ∷ (6, 6) ∷ (3, 3) ∷ [] })
unfolding add draw grow move
crowd_added = refl

abbrev steps : Reached (close 17 two_streams) (18 ∷ [])
unfolding construct add draw grow move
steps = closes 17 (adds (33 ∷ 18 ∷ []) 18 (adds (17 ∷ []) 17 empty refl) refl) refl

values-Reached_example :
    (values (close 17 two_streams).streams ≡ 18 ∷ [])
    × IsUnique (18 ∷ [])
    × (2 * size (close 17 two_streams) ≤ suc (close 17 two_streams).prefix)
values-Reached_example = values-Reached (close 17 two_streams) (18 ∷ []) steps
