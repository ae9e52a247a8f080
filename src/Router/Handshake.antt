-- ===== src/Router/Handshake.antt =====
-- lib/router.js: `peerHandshake` and `onpeerhandshake`.
use hyperdht.Prelude.{
  ℕ, Bool, true, false, not, ◌&&◌, ◌||◌, Option, none, some, ◌==◌, if◌then◌else◌,
}
use hyperdht.Messages.Encoding.{Address, is_some}
use hyperdht.Messages.Handshake.{HandshakeMessage, handshake}
use hyperdht.Dht.{Buffer, Node, Request, decode, encode, given, ◌>>=◌}
use hyperdht.Router.{Forward, Forwards, get}

abbrev pub from_client : ℕ
from_client = 0

abbrev pub from_server : ℕ
from_server = 1

abbrev pub from_relay : ℕ
from_relay = 2

abbrev pub from_second_relay : ℕ
from_second_relay = 3

abbrev pub reply_mode : ℕ
reply_mode = 4

-- What a handler does with its request: nothing, `req.reply` with the address of the option `to`, or
-- `req.relay`. The socket that a server names is not kept.
pub data Sent : Type 0 where
  nothing : Sent
  replies : Option Buffer → Option Address → Bool → Sent
  relays : Buffer → Address → Sent

-- `state.onpeerhandshake`, which is given noise and peer address, and the noise of its reply. It is
-- none where the call throws, or returns nothing or no noise.
abbrev pub Handler : Type 0
Handler = Buffer → Option Address → Request → Option Buffer

abbrev pub state_of : (n : Node) → Forwards n → Request → Option Forward
state_of n forwards req = req.target >>= λ target. get n target forwards

abbrev pub relay_of : Option Forward → Option Address
relay_of none = none
relay_of (some state) = state.relay

abbrev pub is_server : Option Forward → Bool
is_server none = false
is_server (some state) = state.onpeerhandshake

abbrev pub or_else : Option Address → Option Address → Option Address
or_else none b = b
or_else (some a) b = some a

abbrev pub message : ℕ → Buffer → Option Address → Option Address → HandshakeMessage
message mode noise peer_address relay_address = record {
  mode = mode;
  noise = some noise;
  peer_address = peer_address;
  relay_address = relay_address;
}

-- `onpeerhandshake` at a server, after its handler.
unfoldable pub serve_handshake : Node → HandshakeMessage → Buffer → Request → Sent
serve_handshake n hs noise req =
    if hs.mode == from_client
    then replies (some (encode (handshake n.compact) (message reply_mode noise none none))) none
        false
    else if hs.mode == from_relay
    then relays (encode (handshake n.compact) (message from_server noise hs.peer_address none))
        req.from
    else if hs.mode == from_second_relay
    then given hs.relay_address nothing (λ relay_address.
      relays (encode (handshake n.compact) (message from_server noise hs.peer_address none))
        relay_address)
    else nothing

-- `onpeerhandshake` at a node that is not the server, of a message with noise.
unfoldable pub relay_handshake : Node → HandshakeMessage → Buffer → Option Address → Request → Sent
relay_handshake n hs noise relay req =
    if hs.mode == from_client
    then given (or_else hs.relay_address relay) (replies none none true) (λ to.
      relays (encode (handshake n.compact) (message from_relay noise (some req.from) none)) to)
    else if hs.mode == from_relay
    then given relay nothing (λ to.
      relays
        (encode (handshake n.compact)
          (message from_second_relay noise hs.peer_address (some req.from)))
        to)
    else if hs.mode == from_server
    then given hs.peer_address nothing (λ to.
      replies (some (encode (handshake n.compact) (message reply_mode noise (some req.from) none)))
        (some to) false)
    else nothing

unfoldable pub handshake_decoded :
    (n : Node) → Handler → Forwards n → HandshakeMessage → Request → Sent
unfolding serve_handshake relay_handshake
handshake_decoded n handler forwards hs req =
    let state = state_of n forwards req in
    given hs.noise nothing (λ noise.
      if is_server state
      then given (handler noise hs.peer_address req) nothing
          (λ reply. serve_handshake n hs reply req)
      else relay_handshake n hs noise (relay_of state) req)

-- `onpeerhandshake`
unfoldable pub on_peer_handshake : (n : Node) → Handler → Forwards n → Request → Sent
unfolding handshake_decoded
on_peer_handshake n handler forwards req =
    given (req.value >>= decode (handshake n.compact)) nothing
      (λ hs. handshake_decoded n handler forwards hs req)

abbrev pub same_address : Address → Address → Bool
same_address a b = a.host == b.host && a.port == b.port

-- A response to `dht.request`.
pub record Response : Type 0 where
  pub value : Option Buffer
  pub from : Address
  pub to : Address

-- What `peerHandshake` returns.
pub record Handshaken : Type 0 where
  pub noise : Buffer
  pub relayed : Bool
  pub server_address : Address
  pub client_address : Address

abbrev pub address_or : Option Address → Address → Address
address_or none b = b
address_or (some a) b = a

-- The request of `peerHandshake`.
unfoldable pub handshake_request : Node → Option Buffer → Option Address → Option Address → Buffer
handshake_request n noise peer_address relay_address = encode (handshake n.compact) (record {
  mode = from_client;
  noise = noise;
  peer_address = peer_address;
  relay_address = relay_address;
})

-- The checks of `peerHandshake`; `BAD_HANDSHAKE_REPLY` is none.
unfoldable pub check_handshake : Node → Address → Response → Option Handshaken
check_handshake n to res = given (res.value >>= decode (handshake n.compact)) none (λ hs.
    if not (hs.mode == reply_mode) || not (same_address to res.from)
    then none
    else given hs.noise none (λ noise. some (record {
      noise = noise;
      relayed = is_some hs.peer_address;
      server_address = address_or hs.peer_address to;
      client_address = res.to;
    })))
