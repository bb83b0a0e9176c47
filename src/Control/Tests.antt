-- ===== src/Control/Tests.antt =====
-- Runs of src/control.c, and each theorem at an input.
use tether_obs_plugin.Common.{
  ℕ, suc, ◌≡◌, refl, true, false, [], ◌∷◌, ◌++◌, none, some, arith, Bytes, codes, str_eq, is_blank,
  strip_prefix, copy_into, pos, ltb, if◌then◌else◌,
}
use tether_obs_plugin.Registry
use tether_obs_plugin.Registry.{Registry}
use tether_obs_plugin.Registry.Lifetime.{Run-Counts, cold, started, got}
use tether_obs_plugin.KnownTokens.{ObsData, Store}
use tether_obs_plugin.Sender.{peer_connected, told_pending, told_peer_state, told_peer_gone}
use tether_obs_plugin.Control.{Control, hear, hear_all, set_state, erase_peer, state_word}
use tether_obs_plugin.Control.Lines.{
  parse_line, trim, cut_at, sender_lists, join, parse_line-append, sender_lists-join,
}
use tether_obs_plugin.Control.Replies.{Met, reply}
use tether_obs_plugin.Control.Sending.{cmd_sender_status, peer_texts}
use tether_obs_plugin.Control.Receiving.{cmd_receive_forget}
use tether_obs_plugin.KnownTokens
use tether_obs_plugin.Control.Commands.{dispatch, run_command, command_of}
use tether_obs_plugin.Control.Held.{InOrder, others_of, cmd_receive_forget-others_of}
use tether_obs_plugin.Control.Safety.{fresh}
use tether_obs_plugin.Control.Runs.{Runs, at_registry}
use tether_obs_plugin.Control.Writing.{
  Answer, wrote, interrupted, Behaves, write_all, Written, write_all-Written,
}

-- A store of tokens that keeps nothing
abbrev data' : ObsData Unit Unit
data' = record {
  create = tt;
  set_string = λ o k v. tt;
  get_string = λ o k. none;
  save_json = λ os. tt;
  load_json = λ f. none;
}

abbrev known : Store Unit
known = record { initialised = true; entries = []; has_path = false; file = none }

abbrev token : Bytes
token = codes "TTHR-ABCD-EFGH-2345"

abbrev met : Met ℕ
met = record {
  rc = pos 3;
  answers = record {
    env = record { no_stun = none; bind_loopback = none; bind_ip = none };
    decimal = λ n. n ∷ [];
    connection = pos 40;
    track = λ i. pos (suc i);
    found = λ name. true;
    encoder = λ i. some i;
    negotiated = pos 0;
  };
  events = [];
  wrtc_made = true;
  sig_made = true;
}

abbrev start : Control ℕ ℕ Unit
start = fresh ℕ ℕ (Registry.init cold) known

pong : dispatch data' start (codes "ping \r\n") met ≡ some (start, codes "OK pong\n")
unfolding dispatch parse_line trim cut_at command_of run_command reply str_eq
pong = refl

unknown_command :
    dispatch data' start (codes "pong now\n") met
    ≡ some (start, codes "ERR unknown command 'pong'\n")
unfolding dispatch parse_line trim cut_at command_of run_command reply str_eq
unknown_command = refl

-- The peers, as the sender tells of them
status_told :
    cmd_sender_status (
      hear_all start (
        told_pending (codes "p1") (codes "Ann") []
        ∷ told_pending (codes "p2") (codes "Bob") []
        ∷ told_peer_state (codes "p2") peer_connected
        ∷ told_peer_gone (codes "p1")
        ∷ []))
    ≡ codes "OK token=- peers=p2:connected:Bob\n"
unfolding cmd_sender_status hear_all hear set_state erase_peer peer_texts state_word reply str_eq
    is_blank copy_into
status_told = refl

parse_line-append_example :
    parse_line ((codes "sender-accept" ++ 32 ∷ codes "p 1") ++ 13 ∷ 10 ∷ [])
    ≡ (codes "sender-accept", some (codes "p 1"))
unfolding trim
parse_line-append_example =
    parse_line-append (codes "sender-accept") (13 ∷ 10 ∷ []) 112 (codes " 1")
      (
        refl,
        (
          refl,
          (
            refl,
            (refl, (refl, (refl, (refl, (refl, (refl, (refl, (refl, (refl, (refl, tt)))))))))),
          ),
        ),
      )
      refl (refl, (refl, tt))

sender_lists-join_example :
    (sender_lists (join (codes "A" ∷ codes "B" ∷ []) ++ 124 ∷ join (codes "M" ∷ []))
      ≡ (codes "A" ∷ codes "B" ∷ [], codes "M" ∷ []))
    × (sender_lists (join (codes "A" ∷ codes "M" ∷ [])) ≡ (codes "A" ∷ [], codes "M" ∷ []))
unfolding is_blank
sender_lists-join_example =
    sender_lists-join (codes "A" ∷ codes "B" ∷ []) (codes "M" ∷ []) (codes "A")
      ((refl, (refl, tt)), ((refl, (refl, tt)), tt)) ((refl, tt), ((refl, tt), tt))
      ((refl, (refl, tt)), tt) ((refl, (refl, tt)), ((refl, (refl, tt)), tt))
      ((refl, tt), ((refl, tt), tt))

-- The socket holds the session of a token.
abbrev holding : Control ℕ ℕ Unit
holding = record start {
  held = 0 ∷ [];
  registry = (Registry.get (Registry.init cold) (some token) true true).0;
}

holding-InOrder : InOrder holding []
unfolding is_blank Registry.get Registry.init Registry.get_found Registry.register
    Registry.session_create Registry.find_token strip_prefix
holding-InOrder = Run-Counts _ _ (got (Registry.init cold) [] (some token) true true started)

cmd_receive_forget-others_of_example :
    (c' : Control ℕ ℕ Unit) × (text : Bytes) × (cmd_receive_forget data' holding (some token)
      ≡ some (c', text))
    × (c'.held ≡ others_of holding.registry token (0 ∷ []))
    × InOrder c' []
unfolding is_blank
cmd_receive_forget-others_of_example =
    cmd_receive_forget-others_of data' holding token [] refl holding-InOrder

-- Another user has got the session of the token, and then the socket registers it too.
abbrev shared : Control ℕ ℕ Unit
shared =
    at_registry (fresh ℕ ℕ (Registry.init cold) known)
      (Registry.get (Registry.init cold) (some token) true true).0

abbrev both : Control ℕ ℕ Unit
both = record shared {
  held = 0 ∷ [];
  registry = (Registry.get shared.registry (some token) true true).0;
  known = (KnownTokens.add data' known (some token)).0;
}

-- `write` is interrupted twice, and then takes two bytes at most.
abbrev write : ℕ → ℕ → Answer
write call len = if ltb call 2 then interrupted else if ltb len 2 then wrote len else wrote 2

write-Behaves : Behaves write 2
write-Behaves = record {
  takes = λ call len n h e. ground arith;
  rests = λ call len e. ground arith;
}

pieces : write_all 6 write 0 (codes "OK a") ≡ some (true, codes "OK" ∷ codes " a" ∷ [])
unfolding write_all
pieces = refl

write_all-Written_example : Written write (write_all 6 write 0 (codes "OK a")) (codes "OK a")
write_all-Written_example = write_all-Written write 2 (codes "OK a") write-Behaves
