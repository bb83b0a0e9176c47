-- ===== src/Signaling/Tests.antt =====
-- Runs of src/signaling.c, and each theorem at an input.
use tether_obs_plugin.Common.{
  ◌≡◌, inr, refl, true, false, List, [], ◌∷◌, none, some, arith, codes, pos, negsuc,
}
use tether_obs_plugin.Json.Fields.{Field, IsObject, plain_byte, render, field_of}
use tether_obs_plugin.Signaling.{
  Signaling, Config, emitted, sent, receiver, disconnected, connecting, state_changed, create,
  connected, set_state, connect, on_open, is_open, handle_message,
}
use tether_obs_plugin.Signaling.Dispatch.{protocol, handle_message-render}
use tether_obs_plugin.Signaling.Connection.{
  idle, here, next, begins, hooks, opens, stores, reachable-is_open,
}

abbrev client : Signaling
client = record {
  server_url = codes "wss://host/v1";
  display_name = codes "Tether";
  token = some (codes "TTHR-1");
  role = receiver;
  ttl_text = codes "0";
  reusable_token = false;
  has_cb = true;
  ws = negsuc 0;
  state = disconnected;
}

abbrev config : Config
config = record {
  server_url = some (codes "wss://host/v1");
  display_name = some (codes "Tether");
  token = some (codes "TTHR-1");
  role = receiver;
  ttl_text = codes "0";
  reusable_token = false;
  has_cb = true;
}

created : create config ≡ some client
unfolding create
created = refl

abbrev linked : Signaling
linked = record client { ws = pos 7; state = connecting }

connected_to : (connect client (pos 7)).sig ≡ linked
unfolding connect
connected_to = refl

says_hello :
    (on_open linked).1
    ≡ emitted (record { kind = state_changed; peer_id = none; payload = none })
      ∷ sent
          (pos 7)
          (codes
            "{\"type\":\"hello\",\"role\":\"receiver\",\"name\":\"Tether\",\"token\":\"TTHR-1\",\"ttl_minutes\":0,\"reusable\":false}")
          (negsuc 100)
      ∷ []
unfolding on_open
says_hello = refl

abbrev offer : List Field
offer =
    (codes "type", codes "sdp")
    ∷ (codes "sdp_type", codes "offer")
    ∷ (codes "peer_id", codes "p1")
    ∷ []

offer-IsObject : IsObject offer
unfolding plain_byte
offer-IsObject = ground arith

handle_message-render_example :
    handle_message linked (render offer)
    ≡ protocol linked
        (render offer)
        (field_of (codes "type") offer)
        (field_of (codes "token") offer)
        (field_of (codes "peer_id") offer)
        (field_of (codes "sdp_type") offer)
handle_message-render_example = handle_message-render linked offer offer-IsObject

open_linked : is_open linked.ws ≡ true
unfolding is_open
open_linked = refl

reachable-is_open_example : (is_open linked.ws ≡ true) × (some (pos 7) ≡ some linked.ws)
unfolding set_state is_open on_open
reachable-is_open_example =
    reachable-is_open config client
      (record { sig = record linked { state = connected }; call = idle; socket = some (pos 7) })
      created
      (next
        (next (next (next here (begins refl refl)) (hooks (pos 7) refl refl)) (opens (pos 7) refl))
        (stores (pos 7) refl))
      refl (inr refl)
