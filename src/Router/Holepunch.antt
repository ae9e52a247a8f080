-- ===== src/Router/Holepunch.antt =====
-- lib/router.js: `peerHolepunch` and `onpeerholepunch`.
use hyperdht.Prelude.{
  ℕ, ◌<◌, ◌≡◌, Bool, true, false, not, ◌||◌, Option, none, some, [], ◌==◌, if◌then◌else◌, arith,
}
use hyperdht.Messages.Encoding.{Address, Laws, IsUint, IsBuffer, Given}
use hyperdht.Messages.Handshake.{HolepunchMessage, holepunch, holepunch-IsLawful}
use hyperdht.Dht.{Buffer, Node, Request, decode, encode, given, ◌>>=◌}
use hyperdht.Router.{Forward, Forwards, get}
use hyperdht.Router.Handshake.{
  Sent, nothing, replies, relays, state_of, relay_of, or_else, address_or, same_address, Response,
  from_client, from_server, from_relay, reply_mode,
}

-- `state.onpeerholepunch`, which is given id, payload and peer address, and the payload of its reply.
-- It is none where the call throws or returns nothing.
abbrev pub Handler : Type 0
Handler = ℕ → Option Buffer → Address → Request → Option (Option Buffer)

abbrev punches : Option Forward → Bool
punches none = false
punches (some state) = state.onpeerholepunch

abbrev pub message : ℕ → ℕ → Option Buffer → Option Address → HolepunchMessage
message mode id payload peer_address = record {
  mode = mode;
  id = id;
  payload = payload;
  peer_address = peer_address;
}

abbrev to_bytes : Node → HolepunchMessage → Buffer
to_bytes n m = encode (holepunch n.compact) m

-- `onpeerholepunch`, of a message that is decoded
unfoldable pub holepunch_decoded :
    (n : Node) → Handler → Forwards n → HolepunchMessage → Request → Sent
holepunch_decoded n handler forwards hp req =
    let state = state_of n forwards req in
    if hp.mode == from_client
    then given (or_else hp.peer_address (relay_of state)) nothing
        (λ to. relays (to_bytes n (message from_relay hp.id hp.payload (some req.from))) to)
    else if hp.mode == from_relay
    then (if punches state
        then given hp.peer_address nothing (λ peer_address.
          given (handler hp.id hp.payload peer_address req) nothing (λ payload.
            relays (to_bytes n (message from_server 0 payload (some peer_address))) req.from))
        else nothing)
    else if hp.mode == from_server
    then replies (some (to_bytes n (message reply_mode hp.id hp.payload (some req.from))))
        hp.peer_address false
    else nothing

-- `onpeerholepunch`
unfoldable pub on_peer_holepunch : (n : Node) → Handler → Forwards n → Request → Sent
unfolding holepunch_decoded
on_peer_holepunch n handler forwards req =
    given (req.value >>= decode (holepunch n.compact)) nothing
      (λ hp. holepunch_decoded n handler forwards hp req)

-- What `peerHolepunch` returns.
pub record Punched : Type 0 where
  pub from : Address
  pub to : Address
  pub payload : Option Buffer
  pub peer_address : Address

-- The request of `peerHolepunch`.
unfoldable pub holepunch_request : Node → ℕ → Option Buffer → Option Address → Buffer
holepunch_request n id payload peer_address =
    encode (holepunch n.compact) (message from_client id payload peer_address)

-- The checks of `peerHolepunch`; `BAD_HOLEPUNCH_REPLY` is none.
unfoldable pub check_holepunch : Node → Address → Response → Option Punched
check_holepunch n to res = given (res.value >>= decode (holepunch n.compact)) none (λ hp.
    if not (hp.mode == reply_mode) || not (same_address to res.from)
    then none
    else some (record {
      from = res.from;
      to = res.to;
      payload = hp.payload;
      peer_address = address_or hp.peer_address to;
    }))

module _ (n : Node) (IsIpv4 IsIpv6 : Address → Type 0) (laws : Laws n.compact IsIpv4 IsIpv6)
    (target : Buffer) where
  decode-message :
      (mode id : ℕ) (payload : Option Buffer) (peer_address : Option Address)
      → mode < 253
      → IsUint id
      → IsBuffer payload
      → Given IsIpv4 peer_address
      → decode
          (holepunch n.compact)
          (encode (holepunch n.compact) (message mode id payload peer_address))
        ≡ some (message mode id payload peer_address)
  decode-message mode id payload peer_address small exact filled ok =
      let part =
        holepunch-IsLawful n.compact IsIpv4 IsIpv6 laws (message mode id payload peer_address) []
          (small, exact, filled, ok) in
      ground (arith, part.read)

  abbrev request : Address → Buffer → Request
  request from value = record {
    target = some target;
    token = none;
    value = some value;
    from = from;
  }

  abbrev reply_of : Node → Option Buffer → Address → HolepunchMessage
  reply_of n payload server = message reply_mode 0 payload (some server)

  -- The four steps of a holepunch through a relay: the relay, the server, the relay and the client.
  pub on_peer_holepunch-round :
      (client relay server : Address) (id : ℕ) (payload reply : Option Buffer)
      (handler relay_handler : Handler) (at_relay at_server : Forwards n) (f : Forward)
      → n.caches.get target at_server ≡ some f
      → f.onpeerholepunch ≡ true
      → ((value : Buffer) → handler id payload client (request relay value) ≡ some reply)
      → IsUint id
      → IsBuffer payload
      → IsBuffer reply
      → IsIpv4 client
      → IsIpv4 server
      → (on_peer_holepunch n relay_handler at_relay
            (request client (holepunch_request n id payload (some server)))
          ≡ relays (to_bytes n (message from_relay id payload (some client))) server)
        × (on_peer_holepunch n handler at_server
              (request relay (to_bytes n (message from_relay id payload (some client))))
            ≡ relays (to_bytes n (message from_server 0 reply (some client))) relay)
        × (on_peer_holepunch n relay_handler at_relay
              (request server (to_bytes n (message from_server 0 reply (some client))))
            ≡ replies (some (to_bytes n (reply_of n reply server))) (some client) false)
        × (check_holepunch n relay (record {
          value = some (to_bytes n (reply_of n reply server));
          from = relay;
          to = client;
        })
            ≡ some (record { from = relay; to = client; payload = reply; peer_address = server }))
  unfolding on_peer_holepunch holepunch_decoded get check_holepunch holepunch_request
  on_peer_holepunch-round client relay server id payload reply handler relay_handler at_relay
        at_server f found punch handles exact filled full ok fine =
      (
        ground (
          arith,
          decode-message from_client id payload (some server) (omega arith) exact filled fine,
        ),
        ground (
          arith,
          found,
          punch,
          handles (to_bytes n (message from_relay id payload (some client))),
          decode-message from_relay id payload (some client) (omega arith) exact filled ok,
        ),
        ground (
          arith,
          decode-message from_server 0 reply (some client) (omega arith) (omega arith) full ok,
        ),
        ground (
          arith,
          decode-message reply_mode 0 reply (some server) (omega arith) (omega arith) full fine,
        ),
      )
