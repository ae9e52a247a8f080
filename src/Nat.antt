-- ===== src/Nat.antt =====
-- lib/nat.js: the sampler that classifies the NAT in front of a socket from the addresses under
-- which other nodes see it. A host stands as a number, since hosts are only compared; `host:port`
-- strings are pairs. The promise `analyzing` is a flag that `_resolve` sets.
pub mod Samples
pub mod Laws
mod Tests
use hyperdht.Prelude.{
  ℕ, suc, ◌+◌, Bool, true, false, not, ◌&&◌, ◌||◌, Option, none, some, List, [], ◌∷◌, ltb, leb,
  ◌==◌, if◌then◌else◌, length,
}
use hyperdht.Nat.Samples.{Sample, add_sample}

-- `FIREWALL` of lib/constants.js
pub data Firewall : Type 0 where
  unknown opened consistent random : Firewall

pub record Address : Type 0 where
  pub host : ℕ
  pub port : ℕ

-- `visited` holds 0 where the Map has no entry. An element of `addresses` is a sample object, of
-- which the host and the port are kept, or `none` for undefined.
pub record Nat : Type 0 where
  pub samples_host : List Sample
  pub samples_full : List Sample
  pub visited : ℕ → ℕ → ℕ
  pub min_samples : ℕ
  pub auto_sampling : Bool
  pub sampled : ℕ
  pub firewall : Firewall
  pub addresses : Option (List (Option Address))
  pub frozen : Bool
  pub resolved : Bool

-- `constructor(dht, session, socket)`, for `dht.firewalled`
unfoldable pub construct : Bool → Nat
construct firewalled = record {
  samples_host = [];
  samples_full = [];
  visited = λ host port. 0;
  min_samples = 4;
  auto_sampling = false;
  sampled = 0;
  firewall = if firewalled then Firewall.unknown else Firewall.opened;
  addresses = none;
  frozen = false;
  resolved = false;
}

abbrev pub address : Sample → Address
address s = record { host = s.host; port = s.port }

-- The last test of `_updateFirewall`
abbrev pub late : ℕ → Firewall → Firewall
late sampled old = if ltb 4 sampled then Firewall.random else old

-- The tests of `_updateFirewall` on the hosts and the addresses when three samples are in. Reading
-- the hits of a sample that is not there throws, which is `none`.
unfoldable pub decide_firewall : ℕ → List Sample → List Sample → Firewall → Option Firewall
decide_firewall sampled hosts [] old = none
decide_firewall sampled hosts (first ∷ []) old =
    if leb 3 first.hits
    then some Firewall.consistent
    else if first.hits == 1
    then some Firewall.random
    else if length hosts == 1 && ltb 3 sampled
    then some Firewall.random
    else if ltb 1 (length hosts)
    then none
    else some (late sampled old)
decide_firewall sampled hosts (first ∷ second ∷ rest) old =
    if leb 3 first.hits
    then some Firewall.consistent
    else if first.hits == 1
    then some Firewall.random
    else if length hosts == 1 && ltb 3 sampled
    then some Firewall.random
    else if ltb 1 (length hosts) && ltb 1 second.hits
    then some Firewall.consistent
    else some (late sampled old)

abbrev pub with_firewall : Nat → Option Firewall → Option Nat
with_firewall n none = none
with_firewall n (some f) = some (record n { firewall = f })

-- `_updateFirewall()`
unfoldable pub update_firewall : Bool → Nat → Option Nat
unfolding decide_firewall
update_firewall firewalled n =
    if not firewalled
    then some (record n { firewall = Firewall.opened })
    else if ltb n.sampled 3
    then some n
    else with_firewall n (decide_firewall n.sampled n.samples_host n.samples_full n.firewall)

abbrev pub first_address : List Sample → Option Address
first_address [] = none
first_address (s ∷ rest) = some (address s)

-- The loop over the samples, with the number of addresses pushed so far.
unfoldable pub choose : ℕ → List Sample → List (Option Address)
choose pushed [] = []
choose pushed (s ∷ rest) =
    let with_s = choose (suc pushed) rest in
    let without_s = choose pushed rest in
    if leb 2 s.hits || ltb pushed 2 then some (address s) ∷ with_s else without_s

-- `_updateAddresses()`
abbrev pub addresses_for : Firewall → Nat → Option (List (Option Address))
addresses_for unknown n = none
addresses_for opened n = n.addresses
addresses_for random n = some (first_address n.samples_host ∷ [])
addresses_for consistent n = some (choose 0 n.samples_full)

abbrev pub update_addresses : Nat → Nat
update_addresses n = record n { addresses = addresses_for n.firewall n }

abbrev pub then_addresses : Option Nat → Option Nat
then_addresses none = none
then_addresses (some n) = some (update_addresses n)

abbrev pub forget_open : Firewall → Firewall
forget_open opened = Firewall.unknown
forget_open f = f

-- `update()`
unfoldable pub update : Bool → Nat → Option Nat
unfolding update_firewall
update firewalled n = then_addresses (
    update_firewall firewalled
      (if firewalled then record n { firewall = forget_open n.firewall } else n))

-- `freeze()`, `unfreeze()`, `destroy()`
unfoldable pub freeze : Nat → Nat
freeze n = record n { frozen = true }

unfoldable pub unfreeze : Bool → Nat → Option Nat
unfolding update_firewall
unfreeze firewalled n = then_addresses (update_firewall firewalled (record n { frozen = false }))

unfoldable pub destroy : Nat → Nat
destroy n = record n { auto_sampling = true; min_samples = 0; resolved = true }

abbrev pub is_decided : Firewall → Bool
is_decided consistent = true
is_decided opened = true
is_decided _ = false

abbrev pub resolve : Nat → Nat
resolve n = record n {
  resolved = n.resolved || (is_decided n.firewall || leb n.min_samples n.sampled);
}

abbrev pub then_resolve : Option Nat → Option Nat
then_resolve none = none
then_resolve (some n) = some (resolve n)

abbrev pub visit : (ℕ → ℕ → ℕ) → Address → ℕ → ℕ → ℕ
visit visited a host port = if host == a.host && port == a.port then 2 else visited host port

-- The state once a sighting is counted.
abbrev pub counted : Address → Address → Nat → Nat
counted addr from n = record n {
  visited = visit n.visited from;
  samples_host = add_sample n.samples_host addr.host 0;
  samples_full = add_sample n.samples_full addr.host addr.port;
  sampled = n.sampled + 1;
}

-- `add(addr, from)`
unfoldable pub add : Bool → Address → Address → Nat → Option Nat
unfolding update
add firewalled addr from n =
    if n.visited from.host from.port == 2
    then some n
    else then_resolve (
        if (leb 3 (n.sampled + 1) || not firewalled) && not n.frozen
        then update firewalled (counted addr from n)
        else some (counted addr from n))
