-- ===== src/Ledger/Accounts/Release.antt =====
-- About `releasePeerLedger` of lib/private/peer-ledger.js.
use hyperdht.Prelude.{
  ℕ, zero, suc, ◌≤◌, ◌<◌, ◌≡◌, refl, Bool, true, false, not, Option, none, some, List, [], ◌∷◌, ltb,
  ◌==◌, arith, Bool-cases, inl, inr, ap, sym, transport, ◌∙◌,
}
use hyperdht.Errors.{ok}
use hyperdht.Ledger.Accounts.{
  Ledger, Store, write, give_back, give_back_to, for_each, release_at, release_peer_ledger,
}

-- A ledger of the store that has been released.
abbrev pub IsReleased : ℕ → Store → Type 0
IsReleased k s = (s.at k).released ≡ true

write-IsReleased :
    (k h : ℕ) (l : Ledger) (s : Store)
    → IsReleased k s
    → ((s.at h).released ≡ true → l.released ≡ true)
    → IsReleased k (write s h l)
write-IsReleased k h l s r stays = elim (Bool-cases (k == h)) [
  | inl e ↦ let same : k ≡ h = ground arith in ground arith
  | inr e ↦ ground arith
]

give_back-IsReleased :
    (k : ℕ) (o : Option ℕ) (h : ℕ) (s : Store) → IsReleased k s → IsReleased k (give_back o h s)
give_back-IsReleased k none h s r = r
give_back-IsReleased k (some p) h s r =
    write-IsReleased k p (give_back_to (s.at h) h (s.at p)) s r (λ e. e)

for_each-IsReleased :
    (k : ℕ) (f : ℕ → Store → Store) (hs : List ℕ) (s : Store)
    → ((h : ℕ) (t : Store) → IsReleased k t → IsReleased k (f h t))
    → IsReleased k s
    → IsReleased k (for_each f hs s)
for_each-IsReleased k f [] s step r = r
for_each-IsReleased k f (h ∷ hs) s step r = for_each-IsReleased k f hs (f h s) step (step h s r)

-- The store once h is marked and its children are released.
abbrev pub marked : ℕ → Store → Store
marked h s = write s h (record (s.at h) { released = true })

abbrev pub emptied : ℕ → ℕ → Store → Store
emptied fuel h s =
    let below = for_each (release_at fuel) (s.at h).children (marked h s) in
    write below h (record (below.at h) { children = [] })

pub no_fuel : (h : ℕ) (s : Store) → s ≡ release_at 0 h s
unfolding release_at
no_fuel h s = refl

pub release_at-live :
    (fuel h : ℕ) (s : Store)
    → (s.at h).released ≡ false
    → give_back (s.at h).parent h (emptied fuel h s) ≡ release_at (suc fuel) h s
unfolding release_at
release_at-live fuel h s e = ground arith

pub release_at-released :
    (fuel h : ℕ) (s : Store) → (s.at h).released ≡ true → release_at fuel h s ≡ s
unfolding release_at
release_at-released zero h s e = refl
release_at-released (suc fuel) h s e = ground arith

emptied-IsReleased :
    (fuel k h : ℕ) (s : Store)
    → ((j : ℕ) (t : Store) → IsReleased k t → IsReleased k (release_at fuel j t))
    → IsReleased k (marked h s)
    → IsReleased k (emptied fuel h s)
emptied-IsReleased fuel k h s step r =
    let below = for_each (release_at fuel) (s.at h).children (marked h s) in
    write-IsReleased k h (record (below.at h) { children = [] }) below
      (for_each-IsReleased k (release_at fuel) (s.at h).children (marked h s) step r) (λ e. e)

pub release_at-IsReleased :
    (fuel k h : ℕ) (s : Store) → IsReleased k s → IsReleased k (release_at fuel h s)
release_at-IsReleased zero k h s r = transport (ap (IsReleased k) (no_fuel h s)) r
release_at-IsReleased (suc fuel) k h s r = elim (Bool-cases (s.at h).released) [
  | inl e ↦ transport (ap (IsReleased k) (sym (release_at-released (suc fuel) h s e))) r
  | inr e ↦ transport (ap (IsReleased k) (release_at-live fuel h s e)) (
      give_back-IsReleased k (s.at h).parent h (emptied fuel h s) (
        emptied-IsReleased fuel k h s (λ j t. release_at-IsReleased fuel k j t)
          (write-IsReleased k h (record (s.at h) { released = true }) s r (λ _. refl))))
]

-- The released ledger itself is marked.
pub release_at_self : (fuel h : ℕ) (s : Store) → 1 ≤ fuel → IsReleased h (release_at fuel h s)
release_at_self zero h s le = absurd (omega arith)
release_at_self (suc fuel) h s le = elim (Bool-cases (s.at h).released) [
  | inl e ↦ transport (ap (IsReleased h) (sym (release_at-released (suc fuel) h s e))) e
  | inr e ↦ transport (ap (IsReleased h) (release_at-live fuel h s e)) (
      give_back-IsReleased h (s.at h).parent h (emptied fuel h s)
        (emptied-IsReleased fuel h h s (λ j t. release_at-IsReleased fuel h j t) (ground arith)))
]

give_back-next : (o : Option ℕ) (h : ℕ) (s : Store) → (give_back o h s).next ≡ s.next
give_back-next none h s = refl
give_back-next (some p) h s = refl

for_each-next :
    (f : ℕ → Store → Store) (hs : List ℕ) (s : Store)
    → ((h : ℕ) (t : Store) → (f h t).next ≡ t.next)
    → (for_each f hs s).next ≡ s.next
for_each-next f [] s step = refl
for_each-next f (h ∷ hs) s step = for_each-next f hs (f h s) step ∙ step h s

pub release_at-next : (fuel h : ℕ) (s : Store) → (release_at fuel h s).next ≡ s.next
release_at-next zero h s = ap (λ t. t.next) (sym (no_fuel h s))
release_at-next (suc fuel) h s = elim (Bool-cases (s.at h).released) [
  | inl e ↦ ap (λ t. t.next) (release_at-released (suc fuel) h s e)
  | inr e ↦
      ap (λ t. t.next) (sym (release_at-live fuel h s e))
      ∙ give_back-next (s.at h).parent h (emptied fuel h s)
      ∙ for_each-next (release_at fuel) (s.at h).children (marked h s)
          (λ j t. release_at-next fuel j t)
]

release_known :
    (h : ℕ) (s : Store)
    → h < s.next
    → ok (not (s.at h).released, release_at s.next h s) ≡ release_peer_ledger h s
unfolding release_peer_ledger
release_known h s below = ground arith

-- For every handle and store: once `releasePeerLedger` has returned, a second call returns false and
-- changes nothing.
pub release_peer_ledger-twice :
    (h : ℕ) (s t : Store) (first : Bool)
    → release_peer_ledger h s ≡ ok (first, t)
    → release_peer_ledger h t ≡ ok (false, t)
unfolding release_peer_ledger
release_peer_ledger-twice h s t first e = elim (Bool-cases (ltb h s.next)) [
  | inl known ↦
      let final = release_known h s (ground arith) ∙ e in
      let same : release_at s.next h s ≡ t = ground arith in
      let gone = transport (ap (IsReleased h) same) (release_at_self s.next h s (ground arith)) in
      let next = sym (ap (λ u. u.next) same) ∙ release_at-next s.next h s in
      ground (arith, release_at-released t.next h t gone)
  | inr unknown ↦ ground arith
]
