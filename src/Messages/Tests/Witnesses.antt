-- ===== src/Messages/Tests/Witnesses.antt =====
-- The messages of lib/messages.js at one value each.
use hyperdht.Prelude.{ℕ, suc, zero, refl, none, some, List, [], ◌∷◌, true, false, arith}
use hyperdht.Messages.Encoding.{Encoding, Address, IsPort, Part}
use hyperdht.Messages.Handshake.{
  HandshakeMessage, handshake, handshake-IsLawful, HolepunchMessage, holepunch, holepunch-IsLawful,
}
use hyperdht.Messages.Records.{
  Announce, MutablePutRequest, PluginRequest, mutable_put_request, plugin_request,
}
use hyperdht.Messages.Records.Lawful.{mutable_put_request-IsLawful, plugin_request-IsLawful}
use hyperdht.Messages.Payload.{NoisePayload, HolepunchPayload, noise_payload}
use hyperdht.Messages.Payload.Lawful.{noise_payload-IsLawful}
use hyperdht.Messages.Tests.{simple, simple_laws}

abbrev Means : {A : Type 0} → Encoding A → A → Type 0
Means e m = Part e.decode (e.encode m (7 ∷ [])) m (7 ∷ []) (e.preencode m)

abbrev one_address : Address
one_address = record { host = 1; port = 49737 }

abbrev bytes : ℕ → List ℕ
bytes zero = []
bytes (suc n) = n ∷ bytes n

abbrev relayed_handshake : HandshakeMessage
relayed_handshake = record {
  mode = 3;
  noise = some (8 ∷ 9 ∷ []);
  peer_address = some one_address;
  relay_address = some one_address;
}

handshake-IsLawful_example : Means (handshake simple) relayed_handshake
handshake-IsLawful_example =
    handshake-IsLawful simple IsPort IsPort simple_laws relayed_handshake (7 ∷ [])
      (omega arith, omega arith, omega arith, omega arith)

abbrev first_holepunch : HolepunchMessage
first_holepunch = record { mode = 0; id = 5; payload = none; peer_address = some one_address }

holepunch-IsLawful_example : Means (holepunch simple) first_holepunch
holepunch-IsLawful_example =
    holepunch-IsLawful simple IsPort IsPort simple_laws first_holepunch (7 ∷ [])
      (omega arith, omega arith, tt, omega arith)

abbrev bumped_announce : Announce
bumped_announce = record {
  peer = some (record { public_key = bytes 32; relay_addresses = one_address ∷ [] });
  refresh = none;
  signature = some (bytes 64);
  bump = 3;
}

abbrev first_put : MutablePutRequest
first_put = record { public_key = bytes 32; seq = 1; value = some (1 ∷ []); signature = bytes 64 }

mutable_put_request-IsLawful_example : Means (mutable_put_request simple) first_put
mutable_put_request-IsLawful_example =
    mutable_put_request-IsLawful simple IsPort IsPort simple_laws first_put (7 ∷ [])
      (refl, omega arith, omega arith, refl)

abbrev greeting : PluginRequest
greeting = record { plugin = 104 ∷ 105 ∷ []; version = 1; command = 2; value = none }

plugin_request-IsLawful_example : Means (plugin_request simple) greeting
plugin_request-IsLawful_example =
    plugin_request-IsLawful simple IsPort IsPort simple_laws greeting (7 ∷ [])
      (omega arith, omega arith, tt)

abbrev full_payload : NoisePayload
full_payload = record {
  version = 1;
  error = 0;
  firewall = 2;
  holepunch = some (record {
    id = 4;
    relays = record { relay_address = one_address; peer_address = one_address } ∷ [];
  });
  addresses4 = one_address ∷ [];
  addresses6 = [];
  udx = some (record { version = 1; reusable_socket = true; id = 6; seq = 0 });
  secret_stream = some (record { version = 1 });
  relay_through = none;
  relay_addresses = some [];
}

noise_payload-IsLawful_example : Means (noise_payload simple) full_payload
noise_payload-IsLawful_example =
    noise_payload-IsLawful simple IsPort IsPort simple_laws full_payload (7 ∷ []) (
      refl,
      omega arith,
      omega arith,
      (omega arith, ((omega arith, omega arith), tt)),
      (omega arith, tt),
      tt,
      (refl, omega arith, omega arith),
      refl,
      tt,
      tt,
    )

abbrev round_one : HolepunchPayload
round_one = record {
  error = 0;
  firewall = 1;
  round = 1;
  connected = false;
  punching = true;
  addresses = some (one_address ∷ []);
  remote_address = some one_address;
  token = some (bytes 32);
  remote_token = none;
}
