-- ===== src/Lib.antt =====
-- Tether is an OBS plugin that sends sources of one OBS to another over WebRTC. A sender draws a token;
-- receivers that know it meet the sender at a signaling server and ask to be let in, and the sender's
-- user decides. This library models the logic of the plugin's C code, under src/ of the repository.
--
-- The parts, and how they meet:
-- * Token (src/token.c): drawing, checking and pasting a token. `get` of the registry and the known
--   tokens use its form.
-- * Admission (src/admission.c): the sender's waiting room. `add_pending` passes the rate limit
--   (`rate_limit_blocks`, `prune_attempts`), then the duplicate check, the limit on receivers and the
--   pins; `accept`, `reject`, `disconnect_peer` and `revoke_all` are the user's decisions. Each function
--   takes the state and gives the new one with the result and the peer that `on_changed` hears of.
--   The readings of the clock are arguments.
-- * Json (src/signaling.c, `json_find_str`): the search for a string field in a message.
-- * Signaling (src/signaling.c): the client of the server. Callbacks and calls take the client's state
--   and give the new one with a list of effects: messages sent and events raised. The WebSocket
--   library's answers are arguments. `connect` is one call without a callback in between; Connection
--   has the calls in their steps, with callbacks between any two.
-- * Sdp (src/signaling.c, src/receive-session.c, src/sender.c): the escaping of a session description by
--   the one end, and its readers on both.
-- * ReceiveSession (src/receive-session.c): one session: the state machine that the signaling events and
--   the peer connection drive, its subscribers, streams and counters.
-- * Registry (src/receive-session.c): the sessions of the process, one to a token, with their reference
--   counts. The natural number `id` stands for a session's address; a call on an address that is not
--   live has no result.
-- * KnownTokens (src/known-tokens.c): the list of tokens with names, and its file. A save that
--   fails is not modelled.
-- * Audio (src/audio.c): the buffer between a captured source and its encoder, and the way back.
--   Sources attaches and detaches the tracks of a sender.
-- * Webrtc (src/webrtc.c): one peer connection with its table of tracks. Calls has the calls of the two
--   ends. What libdatachannel returns is an argument, and what is called is a list of `Call`s.
-- * Sender (src/sender.c, and the default server of src/properties.c): the receivers of a sender. Setup
--   creates it, Events has what the server, the connections and the user do. A call of the admission's
--   `on_changed` is answered within the operation that caused it (`settle`). Offer follows a description
--   from the sender's connection over both clients of the server to the receiver's session. Frames has
--   the hand-over of frames between two threads, a step for what each does under the lock.
-- * Source (src/source.c): a source of OBS that is bound to a session of Registry, and what it plays.
-- * Control (src/control.c): the control socket, which drives a sender and holds sessions. Lines reads a
--   line, Sending and Receiving have the commands, Commands has `dispatch`, Writing the loop that writes
--   a reply. Runs has what may come between two lines: events of the sender, and the other users of the
--   registry and of the known tokens.
-- Common holds what they share: lists and numbers, C strings as lists of the bytes before the
-- terminator, and the lemmas on them. A pointer that may be NULL is an option.
--
-- Numbers are natural numbers with the wrap-around of the source written out where it can happen (the
-- clock, the counters of bytes). Sizes of objects in memory are taken to stay below 2^64.
--
-- Bounds and fuel: the readers of texts recurse on the text that is left. The encoding loop of Audio
-- gets the number of samples in the buffer as fuel; a pass that goes on removes a sample at least, so
-- the loop ends by itself. The loop over the reads of random bytes recurses on the list of reads.
-- The loop that writes a reply gets as fuel the number of the call from which on `write` is not
-- interrupted and the number of bytes; each other call writes a byte at least.
--
-- Not modelled: the mutexes (a function is one step under its lock, and so is a command of the control
-- socket), two calls of `connect` and `disconnect` on one client at once, the freeing of memory, the
-- start and the end of the threads, the rendering and video encoding of src/sender.c and the decoder's
-- set-up in src/source.c (OBS and FFmpeg), the socket of src/control.c, the dialogs and the glue to OBS, and the server under backend/.
-- libdatachannel, libavcodec, Opus, obs_data and the kernel are parameters.
pub mod Common
pub mod Token
pub mod Admission
pub mod Json
pub mod Sdp
pub mod Signaling
pub mod ReceiveSession
pub mod Registry
pub mod KnownTokens
pub mod Audio
pub mod Webrtc
pub mod Sender
pub mod Source
pub mod Control
