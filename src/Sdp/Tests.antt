-- ===== src/Sdp/Tests.antt =====
-- Runs of the escaping and of its readers, and each theorem at an input.
use tether_obs_plugin.Common.{◌≡◌, ◌≢◌, ◌++◌, ◌∷◌, refl, arith, Bytes, codes, some}
use tether_obs_plugin.Sdp.{escape, sdp_message, offer_of, answer_of}
use tether_obs_plugin.Sdp.RoundTrip.{offer_of-sdp_message}
use tether_obs_plugin.Sdp.Answer.{answer_of-sdp_message}

abbrev description : Bytes
description = codes "v=0\r\no=- 1 2\r\n"

message_text :
    sdp_message (codes "p1") (codes "answer") (codes "a\"b\n")
    ≡ codes "{\"type\":\"sdp\",\"peer_id\":\"p1\",\"sdp_type\":\"answer\",\"sdp\":\"a\\\"b\\n\"}"
unfolding sdp_message
message_text = refl

offer_applied : offer_of (sdp_message (codes "p1") (codes "offer") description) ≡ some description
unfolding offer_of sdp_message
offer_applied = refl

answer_applied :
    answer_of (sdp_message (codes "p1") (codes "answer") description)
    ≡ some (codes "v=0\\r\\no=- 1 2\\r\\n")
unfolding answer_of sdp_message
answer_applied = refl

offer_of-sdp_message_example :
    offer_of (sdp_message (codes "sender") (codes "offer") (codes "a\\\"b\n"))
    ≡ some (codes "a\\\"b\n")
offer_of-sdp_message_example =
    offer_of-sdp_message (codes "sender") (codes "offer") (codes "a\\\"b\n") (ground arith)
      (ground arith)

answer_of-sdp_message_example :
    (answer_of (sdp_message (codes "p1") (codes "answer") (codes "v=0" ++ b'\n' ∷ codes "o="))
      ≡ some (escape (codes "v=0" ++ b'\n' ∷ codes "o=")))
    × (escape (codes "v=0" ++ b'\n' ∷ codes "o=") ≢ codes "v=0" ++ b'\n' ∷ codes "o=")
answer_of-sdp_message_example =
    answer_of-sdp_message (codes "p1") (codes "answer") (codes "v=0") (codes "o=") (ground arith)
      (ground arith) (ground arith)
