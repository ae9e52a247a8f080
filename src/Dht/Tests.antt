-- ===== src/Dht/Tests.antt =====
-- A simple node: its caches keep all entries, and lists and signatures are as plain as can be.
use hyperdht.Prelude.{
  ◌≡◌, ◌≢◌, refl, sym, ap, ◌∙◌, true, false, ◌&&◌, Option, none, some, List, [], ◌∷◌, All, take,
  if◌then◌else◌, arith, inl, inr, Bool-cases,
}
use hyperdht.Messages.Tests.{simple}
use hyperdht.Dht.{
  Buffer, Caches, CacheLaws, RecordLaws, Node, equals, equals-eq, equals_refl, if_lem,
}

find : {V : Type 0} → Buffer → List (Buffer × V) → Option V
find k [] = none
find k ((j, v) ∷ s) = if equals j k then some v else find k s

without : {V : Type 0} → Buffer → List (Buffer × V) → List (Buffer × V)
without k [] = []
without k ((j, v) ∷ s) = if equals j k then without k s else (j, v) ∷ without k s

-- A record of a key and a public key.
abbrev Entry : Type 0
Entry = Buffer × Buffer × Buffer

listed : Buffer → List Entry → List Buffer
listed k [] = []
listed k ((j, p, r) ∷ s) = if equals j k then r ∷ listed k s else listed k s

removed : Buffer → Buffer → List Entry → List Entry
removed k q [] = []
removed k q ((j, p, r) ∷ s) =
    if equals j k && equals p q then removed k q s else (j, p, r) ∷ removed k q s

unfoldable pub simple_caches : Caches
unfolding find without listed removed
simple_caches = record {
  Store = λ V. List (Buffer × V);
  get = find;
  set = λ k v s. (k, v) ∷ s;
  retain = λ k v s. (k, v) ∷ s;
  delete = without;
  Records = List Entry;
  list = λ k m s. listed k s;
  add = λ k p r s. (k, p, r) ∷ removed k p s;
  remove = removed;
}

differ : (j k : Buffer) → j ≢ k → equals k j ≡ false
differ j k h = elim (Bool-cases (equals k j)) [
  | inl same ↦ absurd (h (sym (equals-eq k j same)))
  | inr other ↦ other
]

pub simple_cache_laws : CacheLaws simple_caches
unfolding simple_caches find
simple_cache_laws = record {
  get-set = λ k v s. ground (arith, equals_refl k);
  get-set_other = λ j k v s h. inr (ground (arith, differ j k h));
}

find-without_self : {V : Type 0} (k : Buffer) (s : List (Buffer × V)) → find k (without k s) ≡ none
unfolding find without
find-without_self k [] = refl
find-without_self k ((i, w) ∷ s) = elim (Bool-cases (equals i k)) [
  | inl gone ↦ ground (arith, gone, find-without_self k s)
  | inr stays ↦ ground (arith, stays, find-without_self k s)
]

other_key :
    {V : Type 0} (i j k : Buffer) (v : V) (s : List (Buffer × V))
    → equals i k ≡ true
    → find j (without k s) ≡ some v
    → equals i j ≡ false
other_key i j k v s gone h = elim (Bool-cases (equals i j)) [
  | inl same ↦
      let here : k ≡ j = sym (equals-eq i k gone) ∙ equals-eq i j same in
      let nowhere = ap (λ l. find l (without k s)) (sym here) ∙ find-without_self k s in
      absurd (ground (arith, nowhere))
  | inr other ↦ other
]

find-without :
    {V : Type 0} (j k : Buffer) (v : V) (s : List (Buffer × V))
    → find j (without k s) ≡ some v
    → find j s ≡ some v
unfolding find without
find-without j k v [] h = h
find-without j k v ((i, w) ∷ s) h = elim (Bool-cases (equals i k)) [
  | inl gone ↦
      let later : find j (without k s) ≡ some v = ground (arith, gone) in
      ground (arith, other_key i j k v s gone later, find-without j k v s later)
  | inr stays ↦ ground (arith, stays, find-without j k v s)
]

listed-removed :
    (P : Buffer → Type 0) (j k q : Buffer) (s : List Entry)
    → All P (listed j s)
    → All P (listed j (removed k q s))
unfolding listed removed
listed-removed P j k q [] h = h
listed-removed P j k q ((i, p, r) ∷ s) h = ground (arith, listed-removed P j k q s)

pub simple_record_laws : RecordLaws simple_caches
unfolding simple_caches
simple_record_laws = record {
  get-delete = λ j k v s h. find-without j k v s h;
  list-add = λ P j k p r m s h new.
      if_lem (All P) (equals k j) _ _
        (λ same. (new (sym (equals-eq k j same)), listed-removed P j k p s (h m)))
        (λ other. listed-removed P j k p s (h m));
  list-remove = λ P j k p m s h. listed-removed P j k p s (h m);
}

-- A signature is right if it starts as the key does, and a hash is its input.
abbrev pub simple_node : Node
simple_node = record {
  compact = simple;
  caches = simple_caches;
  hash = λ b. b;
  hash_batch = λ bs. [];
  verify = λ signature signed key. equals (take 1 signature) (take 1 key);
  ns_announce = 4 ∷ [];
  ns_unannounce = 5 ∷ [];
  ns_mutable_put = 6 ∷ [];
  id = some (1 ∷ []);
  now = 1000000;
  plugin_version = λ name. some 1;
}
