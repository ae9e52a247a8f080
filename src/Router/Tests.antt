-- ===== src/Router/Tests.antt =====
-- The ways of lib/router.js from a client to a server, with one or two relays.
use hyperdht.Prelude.{◌+◌, ◌≡◌, refl, true, false, none, some, [], ◌∷◌, ◌==◌, arith, if◌then◌else◌}
use hyperdht.Messages.Encoding.{Address, IsPort}
use hyperdht.Messages.Tests.{simple_laws}
use hyperdht.Dht.{Buffer}
use hyperdht.Dht.Tests.{simple_node, simple_caches}
use hyperdht.Router.{Forward, Forwards}
use hyperdht.Router.Handshake.{handshake_request}
use hyperdht.Router.Route.{Network, route, is_finished, route-bound}
use hyperdht.Router.Connect.{connect, connect-second_relay, shaken}

abbrev client : Address
client = record { host = 1; port = 49737 }

abbrev first : Address
first = record { host = 2; port = 49737 }

abbrev second : Address
second = record { host = 3; port = 49737 }

abbrev server : Address
server = record { host = 4; port = 49737 }

abbrev target : Buffer
target = 7 ∷ []

abbrev relays_to : Address → Forward
relays_to next = record {
  relay = some next;
  record_ = [];
  onpeerhandshake = false;
  onpeerholepunch = false;
}

abbrev serves : Forward
serves = record { relay = none; record_ = []; onpeerhandshake = true; onpeerholepunch = true }

abbrev table : Forward → Forwards simple_node
unfolding simple_caches
table f = (target, f) ∷ []

-- The hosts 2, 3 and 4 are a relay, a second relay and the server.
abbrev net : Network simple_node
unfolding simple_caches
net = record {
  forwards = λ at.
      if at.host == 2
      then table (relays_to second)
      else if at.host == 3
      then table (relays_to server)
      else if at.host == 4
      then table serves
      else [];
  handler = λ at noise peer_address req. some (5 ∷ noise);
}

abbrev request_bytes : Buffer
request_bytes = handshake_request simple_node (some (9 ∷ [])) none none

route-bound_example :
    (is_finished (route simple_node net 4 target client first request_bytes) ≡ true)
    × (route simple_node net (4 + 3) target client first request_bytes
        ≡ route simple_node net 4 target client first request_bytes)
route-bound_example =
    route-bound simple_node IsPort IsPort simple_laws net 3 target client first request_bytes

connect-second_relay_example :
    connect simple_node net target client first (some (9 ∷ [])) none
    ≡ some (shaken simple_node IsPort IsPort simple_laws net target (5 ∷ 9 ∷ []) true server client)
unfolding simple_caches
connect-second_relay_example =
    connect-second_relay simple_node IsPort IsPort simple_laws net target client first second server
      (9 ∷ []) (5 ∷ 9 ∷ []) (relays_to second, refl, refl, refl)
      (relays_to server, refl, refl, refl) (serves, refl, refl, λ value. refl) (omega arith)
      (omega arith) (omega arith) (omega arith) (omega arith)
