-- ===== src/Sdp.antt =====
-- How a session description travels in a JSON string: the escaping of `tether_signaling_send_sdp`
-- (src/signaling.c), and what the two ends make of it: `signaling_event` of src/receive-session.c on
-- an offer, `on_signaling_event` of src/sender.c on an answer.
pub mod RoundTrip
pub mod Answer
mod Tests
use tether_obs_plugin.Common.{
  ℕ, Bool, true, false, List, [], ◌∷◌, ◌++◌, Option, none, some, ◌==◌, if◌then◌else◌, Bytes, codes,
  after_first, before_first, strip_prefix,
}

-- The `switch` of `tether_signaling_send_sdp`
unfoldable pub escape_byte : ℕ → Bytes
escape_byte c =
    if c == b'\\'
    then b'\\' ∷ b'\\' ∷ []
    else if c == b'"'
    then b'\\' ∷ b'"' ∷ []
    else if c == b'\n'
    then b'\\' ∷ b'n' ∷ []
    else if c == b'\r'
    then b'\\' ∷ b'r' ∷ []
    else if c == b'\t'
    then b'\\' ∷ b't' ∷ []
    else c ∷ []

unfoldable pub escape : Bytes → Bytes
unfolding escape_byte
escape [] = []
escape (c ∷ s) = escape_byte c ++ escape s

abbrev pub sdp_key : Bytes
sdp_key = codes "\"sdp\":\""

-- The message that `tether_signaling_send_sdp` sends.
unfoldable pub sdp_message : Bytes → Bytes → Bytes → Bytes
unfolding escape
sdp_message peer sdp_type sdp =
    codes "{\"type\":\"sdp\",\"peer_id\":\""
    ++ (peer
        ++ (codes "\",\"sdp_type\":\""
            ++ (sdp_type ++ (codes "\",\"sdp\":\"" ++ (escape sdp ++ codes "\"}")))))

-- The receiver's scan for the end of the string: the bytes from `p` to `end`.
unfoldable pub offer_span : Bytes → Bytes
offer_span [] = []
offer_span (c ∷ []) = if c == b'"' then [] else c ∷ []
offer_span (c ∷ d ∷ s) =
    let escaped = c ∷ d ∷ offer_span s in
    let plain = c ∷ offer_span (d ∷ s) in
    if c == b'\\' then escaped else if c == b'"' then [] else plain

unfoldable pub unescape_byte : ℕ → ℕ
unescape_byte e =
    if e == b'n' then b'\n' else if e == b'r' then b'\r' else if e == b't' then b'\t' else e

-- The receiver's loop over these bytes
unfoldable pub unescape : Bytes → Bytes
unfolding unescape_byte
unescape [] = []
unescape (c ∷ []) = c ∷ []
unescape (c ∷ d ∷ s) =
    let escaped = unescape_byte d ∷ unescape s in
    let plain = c ∷ unescape (d ∷ s) in if c == b'\\' then escaped else plain

-- What the receiver applies as the remote description on `TETHER_SIG_EVT_SDP_OFFER`.
unfoldable pub offer_of : Bytes → Option Bytes
unfolding after_first strip_prefix offer_span unescape
offer_of json = elim (after_first sdp_key json) [
  | none ↦ none
  | some p ↦ some (unescape (offer_span p))
]

-- What the sender applies as the remote description on `TETHER_SIG_EVT_SDP_ANSWER`: the bytes up to
-- the first quote, as they stand.
unfoldable pub answer_of : Bytes → Option Bytes
unfolding after_first strip_prefix before_first
answer_of json = elim (after_first sdp_key json) [ none ↦ none | some p ↦ before_first b'"' p ]

abbrev pub candidate_key : Bytes
candidate_key = codes "\"candidate\":\""

abbrev pub mid_key : Bytes
mid_key = codes "\"mid\":\""

-- The string behind a key, up to the next quote: `strstr`, then `strchr`.
unfoldable pub quoted_after : Bytes → Bytes → Option Bytes
unfolding after_first strip_prefix before_first
quoted_after key json = elim (after_first key json) [ none ↦ none | some p ↦ before_first b'"' p ]

unfoldable pub both : Option Bytes → Option Bytes → Option (Bytes × Bytes)
both none m = none
both (some c) none = none
both (some c) (some m) = some (c, m)

-- The candidate and the mid that both ends take from `TETHER_SIG_EVT_ICE_CANDIDATE`.
unfoldable pub ice_of : Bytes → Option (Bytes × Bytes)
unfolding quoted_after both
ice_of json = both (quoted_after candidate_key json) (quoted_after mid_key json)
