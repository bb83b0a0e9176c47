-- ===== src/Signaling.antt =====
-- src/signaling.c: the client of the signaling server: its connection, its messages in both
-- directions, and the events that it raises. The WebSocket library is called through `Effect`s; what
-- it returns is an argument.
pub mod Dispatch
pub mod Connection
mod Tests
use tether_obs_plugin.Common.{
  ℕ, suc, ◌+◌, Bool, true, false, not, ◌&&◌, List, [], ◌∷◌, ◌++◌, Option, none, some, ◌==◌, ltb,
  if◌then◌else◌, Bytes, codes, is_blank, length, ℤ, pos, negsuc, before_first, str_eq,
}
use tether_obs_plugin.Json.{json_find_str, json_eq_str}
use tether_obs_plugin.Sdp.{sdp_message}

pub data Role : Type 0 where
  sender receiver : Role

pub data State : Type 0 where
  disconnected connecting connected failed : State

pub data EventKind : Type 0 where
  token_issued request_pending peer_gone : EventKind
  request_accepted request_rejected token_invalid token_locked_out : EventKind
  sdp_offer sdp_answer ice_candidate state_changed : EventKind

-- One call of the callback: the event and the two fields of its message.
pub record Event : Type 0 where
  pub kind : EventKind
  pub peer_id : Option Bytes
  pub payload : Option Bytes

-- What the module does to the outside: a call of the callback, or a call of the WebSocket library.
pub data Effect : Type 0 where
  emitted : Event → Effect
  sent : ℤ → Bytes → ℤ → Effect
  opened : Bytes → Effect
  hooked : ℤ → Effect
  closed : ℤ → Effect

pub record Signaling : Type 0 where
  pub server_url : Bytes
  pub display_name : Bytes
  pub token : Option Bytes
  pub role : Role
  pub ttl_text : Bytes
  pub reusable_token : Bool
  pub has_cb : Bool
  pub ws : ℤ
  pub state : State

-- The configuration. `ttl_text` is `token_ttl_minutes` as `printf` writes it.
pub record Config : Type 0 where
  pub server_url : Option Bytes
  pub display_name : Option Bytes
  pub token : Option Bytes
  pub role : Role
  pub ttl_text : Bytes
  pub reusable_token : Bool
  pub has_cb : Bool

unfoldable pub or_nothing : Option Bytes → Bytes
or_nothing none = []
or_nothing (some s) = s

-- `(s && *s) ? bstrdup(s) : NULL`
unfoldable pub filled_or_null : Option Bytes → Option Bytes
filled_or_null none = none
filled_or_null (some []) = none
filled_or_null (some (c ∷ s)) = some (c ∷ s)

-- `tether_signaling_create`
unfoldable pub create : Config → Option Signaling
unfolding or_nothing filled_or_null
create cfg = elim cfg.server_url [
  | none ↦ none
  | some url ↦ some (record {
    server_url = url;
    display_name = or_nothing cfg.display_name;
    token = filled_or_null cfg.token;
    role = cfg.role;
    ttl_text = cfg.ttl_text;
    reusable_token = cfg.reusable_token;
    has_cb = cfg.has_cb;
    ws = negsuc 0;
    state = disconnected;
  })
]

unfoldable pub emit : Signaling → EventKind → Option Bytes → Option Bytes → List Effect
emit sig kind peer payload =
    if sig.has_cb
    then emitted (record { kind = kind; peer_id = peer; payload = payload }) ∷ []
    else []

unfoldable pub state_eq : State → State → Bool
state_eq disconnected disconnected = true
state_eq connecting connecting = true
state_eq connected connected = true
state_eq failed failed = true
state_eq _ _ = false

unfoldable pub set_state : Signaling → State → Signaling × List Effect
unfolding state_eq emit
set_state sig s = (
  record sig { state = s },
  if state_eq sig.state s then [] else emit sig state_changed none none,
)

-- `ws > 0`
unfoldable pub is_open : ℤ → Bool
is_open (pos n) = ltb 0 n
is_open (negsuc n) = false

-- `send_raw`: a text frame, whose size is negative and counts the terminator
unfoldable pub send_raw : Signaling → Bytes → List Effect
unfolding is_open
send_raw sig json = if is_open sig.ws then sent sig.ws json (negsuc (length json)) ∷ [] else []

-- The chain of tests in `handle_message`
pub data Message : Type 0 where
  token pending peer_gone accepted rejected token_invalid token_locked_out sdp ice unknown : Message

unfoldable pub message_of : Bytes → Message
unfolding json_eq_str
message_of json =
    let is = λ (value : Bytes). json_eq_str json (codes "type") value in
    if is (codes "token")
    then Message.token
    else if is (codes "pending")
    then pending
    else if is (codes "peer_gone")
    then Message.peer_gone
    else if is (codes "accepted")
    then accepted
    else if is (codes "rejected")
    then rejected
    else if is (codes "token_invalid")
    then Message.token_invalid
    else if is (codes "token_locked_out")
    then Message.token_locked_out
    else if is (codes "sdp")
    then sdp
    else if is (codes "ice")
    then ice
    else unknown

-- The branches of `handle_message`
unfoldable pub handle : Message → Signaling → Bytes → Signaling × List Effect
unfolding emit json_find_str json_eq_str
handle Message.token sig json =
    let tok = json_find_str json (codes "token") in
    (record sig { token = tok }, emit sig token_issued none tok)
handle pending sig json =
    (sig, emit sig request_pending (json_find_str json (codes "peer_id")) (some json))
handle Message.peer_gone sig json =
    (sig, emit sig EventKind.peer_gone (json_find_str json (codes "peer_id")) none)
handle accepted sig json = (sig, emit sig request_accepted none none)
handle rejected sig json = (sig, emit sig request_rejected none none)
handle Message.token_invalid sig json = (sig, emit sig EventKind.token_invalid none none)
handle Message.token_locked_out sig json =
    (sig, emit sig EventKind.token_locked_out none (some json))
handle sdp sig json = (
  sig,
  emit sig (if json_eq_str json (codes "sdp_type") (codes "offer") then sdp_offer else sdp_answer)
      (json_find_str json (codes "peer_id")) (some json),
)
handle ice sig json =
    (sig, emit sig ice_candidate (json_find_str json (codes "peer_id")) (some json))
handle unknown sig json = (sig, [])

unfoldable pub handle_message : Signaling → Bytes → Signaling × List Effect
unfolding message_of handle
handle_message sig json = handle (message_of json) sig json

-- The hello message of `on_open`
unfoldable pub hello : Signaling → Bytes
unfolding or_nothing
hello sig =
    let head = codes "{\"type\":\"hello\",\"role\":\"" in
    let tail =
      codes ",\"ttl_minutes\":"
      ++ (sig.ttl_text
          ++ (codes ",\"reusable\":"
              ++ ((if sig.reusable_token then codes "true" else codes "false") ++ codes "}"))) in
    elim sig.role [
      | sender ↦
          head
          ++ (codes "sender"
              ++ (codes "\",\"name\":\"" ++ (sig.display_name ++ (codes "\"" ++ tail))))
      | receiver ↦
          head
          ++ (codes "receiver"
              ++ (codes "\",\"name\":\""
                  ++ (sig.display_name
                      ++ (codes "\",\"token\":\""
                          ++ (or_nothing sig.token ++ (codes "\"" ++ tail))))))
    ]

unfoldable pub on_open : Signaling → Signaling × List Effect
unfolding set_state send_raw hello
on_open sig = let (sig', es) = set_state sig connected in (sig', es ++ send_raw sig' (hello sig'))

unfoldable pub on_closed : Signaling → Signaling × List Effect
unfolding set_state
on_closed sig = set_state sig disconnected

unfoldable pub on_error : Signaling → Signaling × List Effect
unfolding set_state
on_error sig = set_state sig failed

-- `on_message`: text frames have a negative size
unfoldable pub on_message : Signaling → Option Bytes → ℤ → Signaling × List Effect
unfolding handle_message
on_message sig none size = (sig, [])
on_message sig (some msg) (pos n) = (sig, [])
on_message sig (some msg) (negsuc n) = handle_message sig msg

unfoldable pub has_query : Bytes → Bool
unfolding before_first
has_query url = elim (before_first b'?' url) [ none ↦ false | some s ↦ true ]

-- The URL that `tether_signaling_connect` opens
unfoldable pub connect_url : Signaling → Bytes
unfolding has_query is_blank or_nothing
connect_url sig = elim sig.role [
  | sender ↦ sig.server_url
  | receiver ↦
      if is_blank sig.token
      then sig.server_url
      else sig.server_url
        ++ ((if has_query sig.server_url then codes "&token=" else codes "?token=")
            ++ or_nothing sig.token)
]

pub record Outcome : Type 0 where
  pub sig : Signaling
  pub effects : List Effect
  pub result : Bool

-- `tether_signaling_connect` when no callback comes before it returns; `rc` is what
-- `rtcCreateWebSocketEx` returns. Signaling/Connection.antt has its steps, with callbacks between them.
unfoldable pub connect : Signaling → ℤ → Outcome
unfolding is_open set_state connect_url
connect sig rc =
    let (sig1, es1) = set_state sig connecting in
    let (sig2, es2) = set_state sig1 failed in
    if is_open sig.ws
    then record { sig = sig; effects = []; result = false }
    else if not (is_open rc)
    then record { sig = sig2; effects = es1 ++ (opened (connect_url sig1) ∷ es2); result = false }
    else record {
      sig = record sig1 { ws = rc };
      effects = es1 ++ (opened (connect_url sig1) ∷ hooked rc ∷ []);
      result = true;
    }

-- `tether_signaling_disconnect`
unfoldable pub disconnect : Signaling → Signaling × List Effect
unfolding is_open set_state
disconnect sig =
    let (sig', es) = set_state (record sig { ws = negsuc 0 }) disconnected in
    if not (is_open sig.ws) then (sig, []) else (sig', closed sig.ws ∷ es)

abbrev pub peer_message : Bytes → Bytes → Bytes
peer_message kind peer =
    codes "{\"type\":\"" ++ (kind ++ (codes "\",\"peer_id\":\"" ++ (peer ++ codes "\"}")))

-- `tether_signaling_accept`, `_reject`, `_revoke_token`: what is sent, and the result
unfoldable pub accept : Signaling → Option Bytes → List Effect × Bool
unfolding send_raw
accept sig none = ([], false)
accept sig (some peer) = (send_raw sig (peer_message (codes "accept") peer), true)

unfoldable pub reject : Signaling → Option Bytes → List Effect × Bool
unfolding send_raw
reject sig none = ([], false)
reject sig (some peer) = (send_raw sig (peer_message (codes "reject") peer), true)

unfoldable pub revoke_token : Signaling → List Effect × Bool
unfolding send_raw
revoke_token sig = (send_raw sig (codes "{\"type\":\"revoke\"}"), true)

-- `tether_signaling_send_sdp`
unfoldable pub send_sdp :
    Signaling → Option Bytes → Option Bytes → Option Bytes → List Effect × Bool
unfolding send_raw sdp_message
send_sdp sig (some peer) (some sdp_type) (some text) =
    (send_raw sig (sdp_message peer sdp_type text), true)
send_sdp sig _ _ _ = ([], false)

-- The message of `tether_signaling_send_ice`; `mline` is the number as `printf` writes it.
unfoldable pub ice_message : Bytes → Bytes → Bytes → Bytes → Bytes
ice_message peer candidate mid mline =
    codes "{\"type\":\"ice\",\"peer_id\":\""
    ++ (peer
        ++ (codes "\",\"candidate\":\""
            ++ (candidate
                ++ (codes "\",\"mid\":\""
                    ++ (mid ++ (codes "\",\"mline\":" ++ (mline ++ codes "}")))))))

-- `tether_signaling_send_ice`
unfoldable pub send_ice :
    Signaling → Option Bytes → Option Bytes → Option Bytes → Bytes → List Effect × Bool
unfolding send_raw ice_message
send_ice sig (some peer) (some candidate) (some mid) mline =
    (send_raw sig (ice_message peer candidate mid mline), true)
send_ice sig _ _ _ mline = ([], false)
