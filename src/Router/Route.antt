-- ===== src/Router/Route.antt =====
-- lib/router.js: the way of a handshake through nodes that run `onpeerhandshake`.
use hyperdht.Prelude.{
  ℕ, zero, suc, ◌+◌, ◌≤◌, ◌<◌, ◌≡◌, refl, Bool, true, false, Option, none, some, [], arith, ◌==◌,
  if◌then◌else◌, ◌∷◌,
}
use hyperdht.Messages.Encoding.{Address, Laws, ◌>>=◌, put, is_some}
use hyperdht.Messages.Handshake.{HandshakeMessage, handshake, handshake_flags}
use hyperdht.Messages.Flags.{two_flags}
use hyperdht.Dht.{Buffer, Node, Request, decode, encode, given, given_lem, if_lem}
use hyperdht.Router.{Forwards}
use hyperdht.Router.Handshake.{
  Sent, nothing, replies, relays, Handler, on_peer_handshake, handshake_decoded, serve_handshake,
  relay_handshake, Response, from_client, from_relay, from_second_relay, from_server, message,
  state_of, is_server, relay_of,
}

-- The table and the handler of each node.
pub record Network (n : Node) : Type 0 where
  pub forwards : Address → Forwards n
  pub handler : Address → Handler

-- A request of dht-rpc, relayed with its target; a reply without an address goes back to the sender.
abbrev pub request : Buffer → Address → Buffer → Request
request target from value = record {
  target = some target;
  token = none;
  value = some value;
  from = from;
}

abbrev reply_to : Option Address → Address → Address
reply_to none from = from
reply_to (some a) from = a

-- What comes of a request: a response, none since a node dropped it, or it is still being relayed
-- when all steps are used up.
pub data Outcome : Type 0 where
  unfinished dropped : Outcome
  responds : Response → Outcome

abbrev pub is_finished : Outcome → Bool
is_finished unfinished = false
is_finished dropped = true
is_finished (responds res) = true

abbrev pub response_of : Outcome → Option Response
response_of unfinished = none
response_of dropped = none
response_of (responds res) = some res

-- What comes of what the node `at` does with a request from `from`.
abbrev pub after : Address → Address → (Address → Buffer → Outcome) → Sent → Outcome
after from at relayed nothing = dropped
after from at relayed (replies value to closer) =
    responds (record { value = value; from = at; to = reply_to to from })
after from at relayed (relays value next) = relayed next value

abbrev pub answer : (n : Node) → Network n → Buffer → Address → Address → Buffer → Sent
answer n net target from at value =
    on_peer_handshake n (net.handler at) (net.forwards at) (request target from value)

-- The outcome of a request that stands at the node `at`, where as many nodes as the number says may
-- handle it, this one included.
unfoldable pub route : (n : Node) → Network n → ℕ → Buffer → Address → Address → Buffer → Outcome
route n net zero target from at value = unfinished
route n net (suc k) target from at value =
    after from at (λ next bytes. route n net k target at next bytes)
      (answer n net target from at value)

module _ (n : Node) (IsIpv4 IsIpv6 : Address → Type 0) (laws : Laws n.compact IsIpv4 IsIpv6) where
  -- How many times a handshake may still be relayed.
  abbrev rank_of : ℕ → ℕ
  rank_of mode =
      if mode == from_client
      then 3
      else if mode == from_relay
      then 2
      else if mode == from_second_relay
      then 1
      else 0

  abbrev rank : Buffer → ℕ
  rank value = elim (decode (handshake n.compact) value) [ none ↦ 0 | some hs ↦ rank_of hs.mode ]

  -- The mode is read back, or nothing is.
  rank-message :
      (m : HandshakeMessage) → m.mode < 253 → rank (encode (handshake n.compact) m) ≤ rank_of m.mode
  unfolding handshake ◌>>=◌
  rank-message m small =
      let marks = handshake_flags m in
      let rest =
        n.compact.buffer.encode m.noise
          (put n.compact.ipv4 m.peer_address (put n.compact.ipv4 m.relay_address [])) in
      let (few, _) = two_flags (is_some m.peer_address ∷ is_some m.relay_address ∷ []) refl in
      let first = laws.uint marks (n.compact.uint.encode m.mode rest) (omega arith) in
      let second = laws.uint m.mode rest (omega arith) in ground (arith, first.read, second.read)

  abbrev Lowers : ℕ → Sent → Type 0
  Lowers k nothing = Unit
  Lowers k (replies value to closer) = Unit
  Lowers k (relays value next) = rank value < k

  serve_handshake-Lowers :
      (hs : HandshakeMessage) (noise : Buffer) (req : Request)
      → Lowers (rank_of hs.mode) (serve_handshake n hs noise req)
  unfolding serve_handshake
  serve_handshake-Lowers hs noise req =
      ground (arith, rank-message (message from_server noise hs.peer_address none) (omega arith))

  relay_handshake-Lowers :
      (hs : HandshakeMessage) (noise : Buffer) (relay : Option Address) (req : Request)
      → Lowers (rank_of hs.mode) (relay_handshake n hs noise relay req)
  unfolding relay_handshake
  relay_handshake-Lowers hs noise relay req = ground (
    arith,
    rank-message (message from_relay noise (some req.from) none) (omega arith),
    rank-message (message from_second_relay noise hs.peer_address (some req.from)) (omega arith),
  )

  handshake_decoded-Lowers :
      (handler : Handler) (forwards : Forwards n) (hs : HandshakeMessage) (req : Request)
      → Lowers (rank_of hs.mode) (handshake_decoded n handler forwards hs req)
  unfolding handshake_decoded
  handshake_decoded-Lowers handler forwards hs req =
      let lowers = Lowers (rank_of hs.mode) in
      let state = state_of n forwards req in
      given_lem lowers hs.noise _ _ (λ e. tt)
        (λ noise e.
          if_lem lowers (is_server state) _ _
            (λ server.
              given_lem lowers (handler noise hs.peer_address req) _ _ (λ f. tt)
                (λ reply f. serve_handshake-Lowers hs reply req))
            (λ other. relay_handshake-Lowers hs noise (relay_of state) req))

  given-Lowers :
      (o : Option HandshakeMessage) (f : HandshakeMessage → Sent)
      → ((hs : HandshakeMessage) → Lowers (rank_of hs.mode) (f hs))
      → Lowers (elim o [ none ↦ 0 | some hs ↦ rank_of hs.mode ]) (given o nothing f)
  given-Lowers none f h = tt
  given-Lowers (some hs) f h = h hs

  answer-Lowers :
      (net : Network n) (target : Buffer) (from at : Address) (value : Buffer)
      → Lowers (rank value) (answer n net target from at value)
  unfolding on_peer_handshake
  answer-Lowers net target from at value =
      given-Lowers (decode (handshake n.compact) value) _ (λ hs.
        handshake_decoded-Lowers (net.handler at) (net.forwards at) hs (request target from value))

  after_eq :
      (from at : Address) (r : ℕ) (f g : Address → Buffer → Outcome) (sent : Sent)
      → Lowers r sent
      → ((next : Address) (value : Buffer) → rank value < r → f next value ≡ g next value)
      → after from at f sent ≡ after from at g sent
  after_eq from at r f g nothing h same = refl
  after_eq from at r f g (replies value to closer) h same = refl
  after_eq from at r f g (relays value next) h same = same next value h

  route_eq :
      (net : Network n) (j k : ℕ) (target : Buffer) (from at : Address) (value : Buffer)
      → rank value < j
      → rank value < k
      → route n net j target from at value ≡ route n net k target from at value
  unfolding route
  route_eq net zero k target from at value h i = absurd (omega arith)
  route_eq net (suc j) zero target from at value h i = absurd (omega arith)
  route_eq net (suc j) (suc k) target from at value h i =
      after_eq from at (rank value) _ _ (answer n net target from at value)
        (answer-Lowers net target from at value)
        (λ next bytes lower. route_eq net j k target at next bytes (omega arith) (omega arith))

  rank_le : (value : Buffer) → rank value ≤ 3
  rank_le value = ground arith

  after-finished :
      (from at : Address) (r : ℕ) (f : Address → Buffer → Outcome) (sent : Sent)
      → Lowers r sent
      → ((next : Address) (value : Buffer) → rank value < r → is_finished (f next value) ≡ true)
      → is_finished (after from at f sent) ≡ true
  after-finished from at r f nothing h ends = refl
  after-finished from at r f (replies value to closer) h ends = refl
  after-finished from at r f (relays value next) h ends = ends next value h

  route-finished :
      (net : Network n) (k : ℕ) (target : Buffer) (from at : Address) (value : Buffer)
      → rank value < k
      → is_finished (route n net k target from at value) ≡ true
  unfolding route
  route-finished net zero target from at value h = absurd (omega arith)
  route-finished net (suc k) target from at value h =
      after-finished from at (rank value) _ (answer n net target from at value)
        (answer-Lowers net target from at value)
        (λ next bytes lower. route-finished net k target at next bytes (omega arith))

  -- Whatever the tables and handlers of the nodes and the bytes of a request: after four nodes at most,
  -- the first one included, a node has answered or dropped it, so that it is relayed three times at
  -- most, and no more steps change the outcome.
  pub route-bound :
      (net : Network n) (k : ℕ) (target : Buffer) (from at : Address) (value : Buffer)
      → (is_finished (route n net 4 target from at value) ≡ true)
        × (route n net (4 + k) target from at value ≡ route n net 4 target from at value)
  route-bound net k target from at value = (
    route-finished net 4 target from at value (omega (arith, rank_le value)),
    route_eq net (4 + k) 4 target from at value (omega (arith, rank_le value))
        (omega (arith, rank_le value)),
  )
