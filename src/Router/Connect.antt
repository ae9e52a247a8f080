-- ===== src/Router/Connect.antt =====
-- lib/router.js: a handshake that reaches a server, and its reply.
use hyperdht.Prelude.{ℕ, ◌<◌, ◌≡◌, Bool, true, false, Option, none, some, [], length, arith}
use hyperdht.Messages.Encoding.{Address, Laws, Given}
use hyperdht.Messages.Handshake.{handshake, handshake-IsLawful}
use hyperdht.Dht.{Buffer, Node, decode, encode, given}
use hyperdht.Router.{Forward, get}
use hyperdht.Router.Handshake.{
  replies, relays, on_peer_handshake, handshake_decoded, serve_handshake, relay_handshake,
  Handshaken, check_handshake, handshake_request, from_client, from_relay, from_second_relay,
  from_server, reply_mode, message, same_address,
}
use hyperdht.Router.Route.{Network, route, response_of, answer, request}

-- `peerHandshake` of a client at `from`, to the node at `to`.
unfoldable pub connect :
    (n : Node)
    → Network n
    → Buffer
    → Address
    → Address
    → Option Buffer
    → Option Address
    → Option Handshaken
unfolding check_handshake
connect n net target from to noise relay_address =
    given
      (response_of (route n net 4 target from to (handshake_request n noise none relay_address)))
      none (λ res. check_handshake n to res)

module _ (n : Node) (IsIpv4 IsIpv6 : Address → Type 0) (laws : Laws n.compact IsIpv4 IsIpv6)
    (net : Network n) (target : Buffer) where
  -- The node at an address has the server's handlers, and what its handler returns.
  abbrev pub IsServer : Address → Buffer → Option Address → Address → Buffer → Type 0
  IsServer at noise peer_address from reply =
      (f : Forward) × (n.caches.get target (net.forwards at) ≡ some f)
      × (f.onpeerhandshake ≡ true)
      × ((value : Buffer)
          → net.handler at noise peer_address (request target from value) ≡ some reply)

  -- The node relays to another one.
  abbrev pub IsRelay : Address → Address → Type 0
  IsRelay at next =
      (f : Forward) × (n.caches.get target (net.forwards at) ≡ some f)
      × (f.onpeerhandshake ≡ false)
      × (f.relay ≡ some next)

  decode-message :
      (mode : ℕ) (noise : Buffer) (peer_address relay_address : Option Address)
      → mode < 253
      → 0 < length noise
      → Given IsIpv4 peer_address
      → Given IsIpv4 relay_address
      → decode
          (handshake n.compact)
          (encode (handshake n.compact) (message mode noise peer_address relay_address))
        ≡ some (message mode noise peer_address relay_address)
  decode-message mode noise peer_address relay_address small filled p q =
      let part =
        handshake-IsLawful n.compact IsIpv4 IsIpv6 laws
          (message mode noise peer_address relay_address) [] (small, filled, p, q) in
      ground (arith, part.read)

  same_address_refl : (a : Address) → same_address a a ≡ true
  same_address_refl a = ground arith

  bytes : ℕ → Buffer → Option Address → Option Address → Buffer
  bytes mode noise p q = encode (handshake n.compact) (message mode noise p q)

  -- The steps of the way.
  client-relay :
      (client at next : Address) (noise : Buffer)
      → IsRelay at next
      → 0 < length noise
      → answer n net target client at (bytes from_client noise none none)
        ≡ relays (bytes from_relay noise (some client) none) next
  unfolding on_peer_handshake handshake_decoded relay_handshake get bytes
  client-relay client at next noise (f, found, other, there) filled = ground (
    arith,
    found,
    other,
    there,
    decode-message from_client noise none none (omega arith) filled tt tt,
  )

  relay-relay :
      (client from at next : Address) (noise : Buffer)
      → IsRelay at next
      → 0 < length noise
      → IsIpv4 client
      → answer n net target from at (bytes from_relay noise (some client) none)
        ≡ relays (bytes from_second_relay noise (some client) (some from)) next
  unfolding on_peer_handshake handshake_decoded relay_handshake get bytes
  relay-relay client from at next noise (f, found, other, there) filled ok = ground (
    arith,
    found,
    other,
    there,
    decode-message from_relay noise (some client) none (omega arith) filled ok tt,
  )

  relay-client :
      (client from at next : Address) (reply : Buffer)
      → IsRelay at next
      → 0 < length reply
      → IsIpv4 client
      → answer n net target from at (bytes from_server reply (some client) none)
        ≡ replies (some (bytes reply_mode reply (some from) none)) (some client) false
  unfolding on_peer_handshake handshake_decoded relay_handshake get bytes
  relay-client client from at next reply (f, found, other, there) filled ok = ground (
    arith,
    found,
    other,
    there,
    decode-message from_server reply (some client) none (omega arith) filled ok tt,
  )

  client-server :
      (client at : Address) (noise reply : Buffer)
      → IsServer at noise none client reply
      → 0 < length noise
      → answer n net target client at (bytes from_client noise none none)
        ≡ replies (some (bytes reply_mode reply none none)) none false
  unfolding on_peer_handshake handshake_decoded serve_handshake get bytes
  client-server client at noise reply (f, found, server, handles) filled = ground (
    arith,
    found,
    server,
    handles (bytes from_client noise none none),
    decode-message from_client noise none none (omega arith) filled tt tt,
  )

  relay-server :
      (client from at : Address) (noise reply : Buffer)
      → IsServer at noise (some client) from reply
      → 0 < length noise
      → IsIpv4 client
      → answer n net target from at (bytes from_relay noise (some client) none)
        ≡ relays (bytes from_server reply (some client) none) from
  unfolding on_peer_handshake handshake_decoded serve_handshake get bytes
  relay-server client from at noise reply (f, found, server, handles) filled ok = ground (
    arith,
    found,
    server,
    handles (bytes from_relay noise (some client) none),
    decode-message from_relay noise (some client) none (omega arith) filled ok tt,
  )

  second-server :
      (client first from at : Address) (noise reply : Buffer)
      → IsServer at noise (some client) from reply
      → 0 < length noise
      → IsIpv4 client
      → IsIpv4 first
      → answer n net target from at (bytes from_second_relay noise (some client) (some first))
        ≡ relays (bytes from_server reply (some client) none) first
  unfolding on_peer_handshake handshake_decoded serve_handshake get bytes
  second-server client first from at noise reply (f, found, server, handles) filled ok fine =
      ground (
        arith,
        found,
        server,
        handles (bytes from_second_relay noise (some client) (some first)),
        decode-message from_second_relay noise (some client) (some first) (omega arith) filled ok
            fine,
      )

  abbrev pub shaken : Buffer → Bool → Address → Address → Handshaken
  shaken noise relayed server client = record {
    noise = noise;
    relayed = relayed;
    server_address = server;
    client_address = client;
  }

  check_reply :
      (client to server : Address) (reply : Buffer)
      → 0 < length reply
      → IsIpv4 server
      → check_handshake n to (record {
        value = some (bytes reply_mode reply (some server) none);
        from = to;
        to = client;
      })
        ≡ some (shaken reply true server client)
  unfolding check_handshake bytes
  check_reply client to server reply filled ok = ground (
    arith,
    same_address_refl to,
    decode-message reply_mode reply (some server) none (omega arith) filled ok tt,
  )

  -- A client, one relay, and the server to which it relays: the client accepts the reply of the
  -- server, as relayed and with its address, if noise and reply are not empty.
  pub connect-relay :
      (client relay server : Address) (noise reply : Buffer)
      → IsRelay relay server
      → IsServer server noise (some client) relay reply
      → 0 < length noise
      → 0 < length reply
      → IsIpv4 client
      → IsIpv4 server
      → connect n net target client relay (some noise) none ≡ some (shaken reply true server client)
  unfolding connect route bytes handshake_request
  connect-relay client relay server noise reply is_relay is_server filled full ok fine = ground (
    arith,
    client-relay client relay server noise is_relay filled,
    relay-server client relay server noise reply is_server filled ok,
    relay-client client server relay server reply is_relay full ok,
    check_reply client relay server reply full fine,
  )

  -- A client, two relays of which the second relays to the server: its reply comes back through the
  -- first, and the client accepts it, if noise and reply are not empty.
  pub connect-second_relay :
      (client first second server : Address) (noise reply : Buffer)
      → IsRelay first second
      → IsRelay second server
      → IsServer server noise (some client) second reply
      → 0 < length noise
      → 0 < length reply
      → IsIpv4 client
      → IsIpv4 first
      → IsIpv4 server
      → connect n net target client first (some noise) none ≡ some (shaken reply true server client)
  unfolding connect route bytes handshake_request
  connect-second_relay client first second server noise reply r1 r2 is_server filled full ok fine
        good =
      ground (
        arith,
        client-relay client first second noise r1 filled,
        relay-relay client first second server noise r2 filled ok,
        second-server client first second server noise reply is_server filled ok fine,
        relay-client client server first second reply r1 full ok,
        check_reply client first server reply full good,
      )
