-- ===== src/Nat/Samples.antt =====
-- lib/nat.js: `addSample`, the samples that it sorts by their hits, and their counts.
use hyperdht.Prelude.{ℕ, ◌+◌, ◌≤◌, ◌≡◌, Bool, ◌&&◌, List, [], ◌∷◌, leb, ◌==◌, if◌then◌else◌, arith}

pub record Sample : Type 0 where
  pub host : ℕ
  pub port : ℕ
  pub hits : ℕ

abbrev pub matches : ℕ → ℕ → Sample → Bool
matches host port s = s.port == port && s.host == host

abbrev pub hit : Sample → Sample
hit s = record { host = s.host; port = s.port; hits = s.hits + 1 }

-- The samples before an index are passed in reverse, so that the last one comes first.
pub restore : List Sample → List Sample → List Sample
restore [] rest = rest
restore (prev ∷ before) rest = restore before (prev ∷ rest)

-- The inner loop: s moves towards the front past the samples with fewer hits.
pub settle : List Sample → Sample → List Sample → List Sample
unfolding restore
settle [] s rest = s ∷ rest
settle (prev ∷ before) s rest =
    if leb s.hits prev.hits
    then restore (prev ∷ before) (s ∷ rest)
    else settle before s (prev ∷ rest)

pub scan : List Sample → List Sample → ℕ → ℕ → List Sample
unfolding restore settle
scan before [] host port = restore before (record { host = host; port = port; hits = 1 } ∷ [])
scan before (s ∷ rest) host port =
    if matches host port s then settle before (hit s) rest else scan (s ∷ before) rest host port

-- `addSample(samples, host, port)`
unfoldable pub add_sample : List Sample → ℕ → ℕ → List Sample
unfolding scan
add_sample samples host port = scan [] samples host port

-- The sightings of one address, and of all of them.
unfoldable pub hits_of : ℕ → ℕ → List Sample → ℕ
hits_of host port [] = 0
hits_of host port (s ∷ rest) =
    let others = hits_of host port rest in if matches host port s then s.hits + others else others

unfoldable pub total_hits : List Sample → ℕ
total_hits [] = 0
total_hits (s ∷ rest) = s.hits + total_hits rest

-- Most hits first, and one at least.
abbrev pub top : List Sample → ℕ
top [] = 1
top (s ∷ rest) = s.hits

abbrev pub IsSorted : List Sample → Type 0
IsSorted [] = Unit
IsSorted (s ∷ rest) = (top rest ≤ s.hits) × IsSorted rest

abbrev Above : List Sample → ℕ → Type 0
Above [] n = Unit
Above (prev ∷ before) n = (n ≤ prev.hits) × Above before prev.hits

Above-mono : (before : List Sample) (m n : ℕ) → m ≤ n → Above before n → Above before m
Above-mono [] m n h a = tt
Above-mono (prev ∷ before) m n h a = ground arith

restore-Above :
    (before rest : List Sample)
    → IsSorted (restore before rest)
    → Above before (top rest) × IsSorted rest
unfolding restore
restore-Above [] rest h = (tt, h)
restore-Above (prev ∷ before) rest h = ground (arith, restore-Above before (prev ∷ rest) h)

restore-IsSorted :
    (before rest : List Sample)
    → Above before (top rest)
    → IsSorted rest
    → IsSorted (restore before rest)
unfolding restore
restore-IsSorted [] rest a h = h
restore-IsSorted (prev ∷ before) rest a h = restore-IsSorted before (prev ∷ rest) a.1 (a.0, h)

settle-IsSorted :
    (before : List Sample) (s : Sample) (rest : List Sample)
    → IsSorted (restore before rest)
    → top rest ≤ s.hits
    → IsSorted (settle before s rest)
unfolding restore settle
settle-IsSorted [] s rest h top_le = (top_le, h)
settle-IsSorted (prev ∷ before) s rest h top_le =
    let (above, sorted) = restore-Above (prev ∷ before) rest h in
    let rising = settle-IsSorted before s (prev ∷ rest) h in
    let kept = restore-IsSorted (prev ∷ before) (s ∷ rest) in ground arith

scan-IsSorted :
    (before samples : List Sample) (host port : ℕ)
    → IsSorted (restore before samples)
    → IsSorted (scan before samples host port)
unfolding restore scan
scan-IsSorted before [] host port h =
    restore-IsSorted before (record { host = host; port = port; hits = 1 } ∷ [])
      (restore-Above before [] h).0 (omega arith, tt)
scan-IsSorted before (s ∷ rest) host port h =
    let (above, sorted) = restore-Above before (s ∷ rest) h in
    let lower = Above-mono before (top rest) s.hits sorted.0 above in
    let moved =
      settle-IsSorted before (hit s) rest (restore-IsSorted before rest lower sorted.1)
        (omega arith) in
    let later = scan-IsSorted (s ∷ before) rest host port h in ground arith

-- Samples that stand in the order of their hits stay so when a sighting is added.
pub add_sample-IsSorted :
    (samples : List Sample) (host port : ℕ)
    → IsSorted samples
    → IsSorted (add_sample samples host port)
unfolding add_sample restore
add_sample-IsSorted samples host port h = scan-IsSorted [] samples host port h

module _ (host port : ℕ) where
  hits_of-restore :
      (before rest : List Sample)
      → hits_of host port (restore before rest) ≡ hits_of host port before + hits_of host port rest
  unfolding hits_of restore
  hits_of-restore [] rest = omega arith
  hits_of-restore (prev ∷ before) rest = ground (arith, hits_of-restore before (prev ∷ rest))

  hits_of-settle :
      (before : List Sample) (s : Sample) (rest : List Sample)
      → hits_of host port (settle before s rest)
        ≡ hits_of host port before + hits_of host port (s ∷ rest)
  unfolding hits_of settle
  hits_of-settle [] s rest = omega arith
  hits_of-settle (prev ∷ before) s rest =
      ground
        (arith, hits_of-restore (prev ∷ before) (s ∷ rest), hits_of-settle before s (prev ∷ rest))

  hits_of-scan :
      (before samples : List Sample) (h p : ℕ)
      → hits_of host port (scan before samples h p)
        ≡ hits_of host port before
          + hits_of host port samples
          + (if p == port && h == host then 1 else 0)
  unfolding hits_of scan
  hits_of-scan before [] h p =
      ground (arith, hits_of-restore before (record { host = h; port = p; hits = 1 } ∷ []))
  hits_of-scan before (s ∷ rest) h p =
      ground (arith, hits_of-settle before (hit s) rest, hits_of-scan (s ∷ before) rest h p)

  -- A sighting of an address counts once for that address and for no other one.
  pub hits_of-add_sample :
      (samples : List Sample) (h p : ℕ)
      → hits_of host port (add_sample samples h p)
        ≡ hits_of host port samples + (if p == port && h == host then 1 else 0)
  unfolding add_sample hits_of
  hits_of-add_sample samples h p = omega (arith, hits_of-scan [] samples h p)

total_hits-restore :
    (before rest : List Sample)
    → total_hits (restore before rest) ≡ total_hits before + total_hits rest
unfolding total_hits restore
total_hits-restore [] rest = omega arith
total_hits-restore (prev ∷ before) rest = ground (arith, total_hits-restore before (prev ∷ rest))

total_hits-settle :
    (before : List Sample) (s : Sample) (rest : List Sample)
    → total_hits (settle before s rest) ≡ total_hits before + (s.hits + total_hits rest)
unfolding total_hits settle
total_hits-settle [] s rest = omega arith
total_hits-settle (prev ∷ before) s rest =
    ground (
      arith,
      total_hits-restore (prev ∷ before) (s ∷ rest),
      total_hits-settle before s (prev ∷ rest),
    )

total_hits-scan :
    (before samples : List Sample) (h p : ℕ)
    → total_hits (scan before samples h p) ≡ total_hits before + total_hits samples + 1
unfolding total_hits scan
total_hits-scan before [] h p =
    ground (arith, total_hits-restore before (record { host = h; port = p; hits = 1 } ∷ []))
total_hits-scan before (s ∷ rest) h p =
    ground (arith, total_hits-settle before (hit s) rest, total_hits-scan (s ∷ before) rest h p)

pub total_hits-add_sample :
    (samples : List Sample) (h p : ℕ) → total_hits (add_sample samples h p) ≡ total_hits samples + 1
unfolding add_sample total_hits
total_hits-add_sample samples h p = omega (arith, total_hits-scan [] samples h p)
