-- ===== src/Persistent/Tests.antt =====
-- The records of lib/persistent.js at one node.
use hyperdht.Prelude.{ℕ, zero, suc, ◌≡◌, refl, ap, Option, none, some, List, [], ◌∷◌, arith}
use hyperdht.Messages.Encoding.{Address, IsPort, IsUint, ◌>>=◌, take_if, put}
use hyperdht.Messages.Flags.{flags}
use hyperdht.Messages.Records.{
  Announce, MutablePutRequest, MutableGetResponse, announce, mutable_put_request,
  mutable_get_response,
}
use hyperdht.Messages.Tests.{simple, simple_laws, simple_reads}
use hyperdht.Dht.{Buffer, Request, encode, decode}
use hyperdht.Dht.Tests.{simple_node, simple_caches, simple_cache_laws, simple_record_laws}
use hyperdht.Persistent.{State, reply, verify_mutable}
use hyperdht.Persistent.Mutable.{on_mutable_put, on_mutable_get, on_immutable_put}
use hyperdht.Persistent.Mutable.Get.{put_of, get_of}
use hyperdht.Persistent.Announce.{on_announce, lookup_records}
use hyperdht.Persistent.Announce.Found.{Announces, IsFound, record_of, lookup_records-on_announce}
use hyperdht.Persistent.Announce.{on_find_peer}
use hyperdht.Messages.Records.{Peer}
use hyperdht.Prelude.{length, take, ◌≤◌}
use hyperdht.Dht.{Node, Caches, CacheLaws}
use hyperdht.Persistent.Run.{
  Call, announcing, putting, putting_immutable, serve_all, serve_all-IsSound, IsSound,
}

abbrev bytes : ℕ → List ℕ
bytes zero = []
bytes (suc n) = n ∷ bytes n

abbrev client : Address
client = record { host = 1; port = 49737 }

abbrev empty : State simple_node
unfolding simple_caches
empty = record {
  records = [];
  bumps = [];
  refreshes = [];
  mutables = [];
  immutables = [];
  forwards = [];
}

abbrev stranger : Address
stranger = record { host = 2; port = 49737 }

-- A key of 32 bytes, whose hash it is, and a signature that starts as it does.
abbrev key : Buffer
key = bytes 32

abbrev signature : Buffer
signature = 31 ∷ bytes 63

abbrev first_put : MutablePutRequest
first_put = record { public_key = key; seq = 1; value = some (9 ∷ []); signature = signature }

abbrev announced_peer : Announce
announced_peer = record {
  peer = some (record { public_key = key; relay_addresses = client ∷ [] });
  refresh = some (bytes 32);
  signature = some signature;
  bump = 3;
}

abbrev announce_request : Request
announce_request = record {
  target = some (bytes 31);
  token = some (8 ∷ []);
  value = some (encode (announce simple) announced_peer);
  from = client;
}

abbrev first_put_request : Request
first_put_request =
    put_of simple_node IsPort IsPort simple_laws simple_cache_laws key (8 ∷ []) client first_put

abbrev immutable_request : Request
immutable_request = record {
  target = some (5 ∷ []);
  token = some (8 ∷ []);
  value = some (5 ∷ []);
  from = client;
}

abbrev calls : List Call
calls =
    announcing announce_request
    ∷ putting first_put_request
    ∷ putting_immutable immutable_request
    ∷ []

abbrev Sound : State simple_node → Type 0
Sound = IsSound simple_node IsPort IsPort simple_laws simple_cache_laws simple_record_laws

empty-Sound : Sound empty
unfolding simple_caches
empty-Sound = (
  λ k b e. ground arith,
  (λ k m. tt, λ k f e. ground arith, λ t r e. ground arith),
  λ k v e. ground arith,
)

abbrev seq_of : Option MutablePutRequest → ℕ
seq_of none = 0
seq_of (some p) = p.seq

exact :
    (p : MutablePutRequest)
    → decode (mutable_put_request simple) (encode (mutable_put_request simple) first_put) ≡ some p
    → IsUint p.seq
unfolding simple mutable_put_request ◌>>=◌
exact p e = let same : 1 ≡ p.seq = ap seq_of e in omega arith

abbrev served : State simple_node
served = serve_all simple_node calls empty

served-Sound : Sound served
served-Sound =
    serve_all-IsSound simple_node IsPort IsPort simple_laws simple_cache_laws simple_record_laws
      simple_reads calls empty empty-Sound (tt, (exact, (tt, tt)))

serve_all-IsSound_example : Sound served
serve_all-IsSound_example =
    serve_all-IsSound simple_node IsPort IsPort simple_laws simple_cache_laws simple_record_laws
      simple_reads calls empty empty-Sound (tt, (exact, (tt, tt)))

abbrev first_get : Request
first_get = get_of simple_node IsPort IsPort simple_laws simple_cache_laws key stranger 1

abbrev first_response : MutableGetResponse
first_response = record { seq = 1; value = some (9 ∷ []); signature = signature }

first_reply :
    on_mutable_get simple_node first_get served
    ≡ reply (some (encode (mutable_get_response simple) first_response))
unfolding simple_caches simple on_mutable_get serve_all verify_mutable on_mutable_put
    mutable_put_request on_announce announce mutable_get_response on_immutable_put ◌>>=◌ take_if
    flags put
first_reply = refl

-- A node that lists as many records as are asked for, and a peer that announces itself there.
abbrev short_caches : Caches
unfolding simple_caches
short_caches = record simple_caches { list = λ k m s. take m (simple_caches.list k m s) }

short_laws : CacheLaws short_caches
unfolding simple_caches
short_laws = record {
  get-set = simple_cache_laws.get-set;
  get-set_other = simple_cache_laws.get-set_other;
}

length-take_le : (m : ℕ) (l : List Buffer) → length (take m l) ≤ m
length-take_le zero l = omega arith
length-take_le (suc m) [] = omega arith
length-take_le (suc m) (x ∷ l) = omega (arith, length-take_le m l)

abbrev short_node : Node
short_node = record simple_node { caches = short_caches }

abbrev short_empty : State short_node
unfolding simple_caches
short_empty = record {
  records = [];
  bumps = [];
  refreshes = [];
  mutables = [];
  immutables = [];
  forwards = [];
}

abbrev this_peer : Peer
this_peer = record { public_key = key; relay_addresses = client ∷ [] }

abbrev own_request : Request
own_request = record announce_request { target = some key }

own_request-Announces : Announces short_node short_laws key this_peer own_request
unfolding simple announce ◌>>=◌ take_if flags put
own_request-Announces = record {
  token = 8 ∷ [];
  id = 1 ∷ [];
  signature = signature;
  ann = announced_peer;
  has_target = refl;
  has_token = refl;
  has_id = refl;
  has_ann = refl;
  has_peer = refl;
  has_signature = refl;
  verified = refl;
  own = refl;
}

lookup_records-on_announce_example :
    IsFound short_node short_laws key this_peer short_empty
      (lookup_records short_node key (on_announce short_node own_request short_empty).0)
    × (on_find_peer short_node own_request (on_announce short_node own_request short_empty).0
        ≡ reply (some (record_of short_node short_laws this_peer)))
unfolding simple_caches
lookup_records-on_announce_example =
    lookup_records-on_announce short_node short_laws key this_peer own_request own_request
      short_empty (λ k m r. length-take_le m _) own_request-Announces refl
