-- ===== src/Sender/Frames.antt =====
-- src/sender.c: the hand-over of frames from the graphics thread to the encoder thread. A step is what
-- a thread does while it holds `frame_lock`; `F` is a frame with its sizes.
use tether_obs_plugin.Common.{
  ℕ, zero, suc, ◌≡◌, ◌⊎◌, Bool, true, false, List, [], ◌∷◌, Option, none, some, if◌then◌else◌,
}

-- The buffer of a `struct video_capture`
pub record Slot (F : Type 0) : Type 0 where
  pub latest_frame : F
  pub frame_ready : Bool

-- Where the encoder thread stands when it does not hold the lock: it waits, it encodes and goes on with
-- a capture after that, or it has ended.
pub data Worker : Type 0 where
  waiting ended : Worker
  encoding : ℕ → Worker

pub record Frames (F : Type 0) : Type 0 where
  pub slots : List (Slot F)
  pub worker : Worker
  pub worker_running : Bool

unfoldable pub store : {F : Type 0} → ℕ → F → List (Slot F) → List (Slot F)
store i f [] = []
store zero f (s ∷ ss) = record { latest_frame = f; frame_ready = true } ∷ ss
store (suc i) f (s ∷ ss) = s ∷ store i f ss

-- The locked part of `capture_one`: the frame of a capture is replaced.
unfoldable pub capture : {F : Type 0} → Frames F → ℕ → F → Frames F
unfolding store
capture st i f = record st { slots = store i f st.slots }

abbrev pub shift :
    {F : Type 0} → Slot F → Option (ℕ × (F × List (Slot F))) → Option (ℕ × (F × List (Slot F)))
shift s none = none
shift s (some (i, (f, ss))) = some (suc i, (f, s ∷ ss))

-- The body of the loop over the captures, by `frame_ready`
abbrev pub pick :
    {F : Type 0}
    → Bool
    → Slot F
    → List (Slot F)
    → Option (ℕ × (F × List (Slot F)))
    → Option (ℕ × (F × List (Slot F)))
pick true s ss rest = some (0, (s.latest_frame, record s { frame_ready = false } ∷ ss))
pick false s ss rest = shift s rest

-- The loop over the captures from a given one: the first that is ready is taken.
unfoldable pub take_from : {F : Type 0} → ℕ → List (Slot F) → Option (ℕ × (F × List (Slot F)))
take_from k [] = none
take_from (suc k) (s ∷ ss) = shift s (take_from k ss)
take_from zero (s ∷ ss) = pick s.frame_ready s ss (take_from zero ss)

unfoldable pub go_on :
    {F : Type 0} → Frames F → Option (ℕ × (F × List (Slot F))) → Frames F × Option (ℕ × F)
go_on st none = (record st { worker = waiting }, none)
go_on st (some (i, (f, ss))) = (record st { slots = ss; worker = encoding (suc i) }, some (i, f))

unfoldable pub work_at : {F : Type 0} → Frames F → Worker → Frames F × Option (ℕ × F)
unfolding go_on take_from
work_at st ended = (st, none)
work_at st waiting =
    if st.worker_running
    then go_on st (take_from zero st.slots)
    else (record st { worker = ended }, none)
work_at st (encoding k) = go_on st (take_from k st.slots)

-- A locked part of `encoder_worker_main`, and what is then passed to `encode_capture_to_sessions`
unfoldable pub work : {F : Type 0} → Frames F → Frames F × Option (ℕ × F)
unfolding work_at
work st = work_at st st.worker

abbrev pub with_output : {F : Type 0} → Option (ℕ × F) → List (ℕ × F) → List (ℕ × F)
with_output none rest = rest
with_output (some o) rest = o ∷ rest

unfoldable pub work_all : {F : Type 0} → ℕ → Frames F → List (ℕ × F)
unfolding work
work_all zero st = []
work_all (suc n) st = let r = work st in with_output r.1 (work_all n r.0)

abbrev pub Has : {F : Type 0} → ℕ × F → List (ℕ × F) → Type 0
Has x [] = ⊥
Has x (y ∷ ys) = (x ≡ y) ⊎ Has x ys
