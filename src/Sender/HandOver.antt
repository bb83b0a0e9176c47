-- ===== src/Sender/HandOver.antt =====
-- src/sender.c: a frame that is captured is encoded.
use tether_obs_plugin.Common.{
  ℕ, zero, suc, ◌+◌, ◌*◌, ◌<◌, ◌≤◌, ◌≡◌, ◌⊎◌, refl, ap, sym, ◌∙◌, Bool, true, false, List, [], ◌∷◌,
  Option, none, some, arith, if◌then◌else◌, length, inl, inr, some_inj, none≢some, subst,
}
use tether_obs_plugin.Sender.Frames.{
  Slot, Worker, waiting, ended, encoding, Frames, store, capture, shift, pick, take_from, go_on,
  work_at, work, with_output, work_all, Has,
}

abbrev slot_at : {F : Type 0} → ℕ → List (Slot F) → Option (Slot F)
slot_at i [] = none
slot_at zero (s ∷ ss) = some s
slot_at (suc i) (s ∷ ss) = slot_at i ss

abbrev ready : {F : Type 0} → List (Slot F) → ℕ
ready [] = 0
ready (s ∷ ss) = if s.frame_ready then suc (ready ss) else ready ss

-- One capture fewer is ready, and one that was ready is taken or stays as it is.
abbrev Fewer : {F : Type 0} → List (Slot F) → Option (ℕ × (F × List (Slot F))) → Type 0
Fewer ss none = Unit
Fewer ss (some (j, (f, ss'))) = ready ss ≡ suc (ready ss')

abbrev Stays : {F : Type 0} → ℕ → Slot F → Option (ℕ × (F × List (Slot F))) → Type 0
Stays i s none = Unit
Stays i s (some (j, (f, ss'))) = ((i ≡ j) × (s.latest_frame ≡ f)) ⊎ (slot_at i ss' ≡ some s)

shift-Fewer :
    {F : Type 0} (s : Slot F) (ss : List (Slot F)) (o : Option (ℕ × (F × List (Slot F))))
    → Fewer ss o
    → Fewer (s ∷ ss) (shift s o)
shift-Fewer s ss none h = tt
shift-Fewer s ss (some (j, (f, ss'))) h = ground (arith, h)

pick-Fewer :
    {F : Type 0} (b : Bool) (s : Slot F) (ss : List (Slot F)) (o : Option (ℕ × (F × List (Slot F))))
    → s.frame_ready ≡ b
    → Fewer ss o
    → Fewer (s ∷ ss) (pick b s ss o)
pick-Fewer true s ss o e h = ground (arith, e)
pick-Fewer false s ss o e h = shift-Fewer s ss o h

take_from-Fewer : {F : Type 0} (k : ℕ) (ss : List (Slot F)) → Fewer ss (take_from k ss)
unfolding take_from
take_from-Fewer k [] = tt
take_from-Fewer (suc k) (s ∷ ss) = shift-Fewer s ss (take_from k ss) (take_from-Fewer k ss)
take_from-Fewer zero (s ∷ ss) =
    pick-Fewer s.frame_ready s ss (take_from zero ss) refl (take_from-Fewer zero ss)

shift-Stays :
    {F : Type 0} (i : ℕ) (s t : Slot F) (o : Option (ℕ × (F × List (Slot F))))
    → Stays i s o
    → Stays (suc i) s (shift t o)
shift-Stays i s t none h = tt
shift-Stays i s t (some (j, (f, ss'))) (inl (e, k)) = inl (ap suc e, k)
shift-Stays i s t (some (j, (f, ss'))) (inr h) = inr h

shift-Stays_head :
    {F : Type 0} (s : Slot F) (o : Option (ℕ × (F × List (Slot F)))) → Stays zero s (shift s o)
shift-Stays_head s none = tt
shift-Stays_head s (some (j, (f, ss'))) = inr refl

pick-Stays_head :
    {F : Type 0} (b : Bool) (s : Slot F) (ss : List (Slot F)) (o : Option (ℕ × (F × List (Slot F))))
    → Stays zero s (pick b s ss o)
pick-Stays_head true s ss o = inl (refl, refl)
pick-Stays_head false s ss o = shift-Stays_head s o

pick-Stays_tail :
    {F : Type 0} (b : Bool) (i : ℕ) (s t : Slot F) (ss : List (Slot F))
    (o : Option (ℕ × (F × List (Slot F))))
    → slot_at i ss ≡ some s
    → Stays i s o
    → Stays (suc i) s (pick b t ss o)
pick-Stays_tail true i s t ss o h k = inr h
pick-Stays_tail false i s t ss o h k = shift-Stays i s t o k

take_from-Stays :
    {F : Type 0} (k i : ℕ) (s : Slot F) (ss : List (Slot F))
    → slot_at i ss ≡ some s
    → Stays i s (take_from k ss)
unfolding take_from
take_from-Stays k i s [] h = tt
take_from-Stays (suc k) zero s (t ∷ ss) h =
    subst (λ x. Stays zero x (shift t (take_from k ss))) (some_inj h)
      (shift-Stays_head t (take_from k ss))
take_from-Stays (suc k) (suc i) s (t ∷ ss) h =
    shift-Stays i s t (take_from k ss) (take_from-Stays k i s ss h)
take_from-Stays zero zero s (t ∷ ss) h =
    subst (λ x. Stays zero x (pick t.frame_ready t ss (take_from zero ss))) (some_inj h)
      (pick-Stays_head t.frame_ready t ss (take_from zero ss))
take_from-Stays zero (suc i) s (t ∷ ss) h =
    pick-Stays_tail t.frame_ready i s t ss (take_from zero ss) h (take_from-Stays zero i s ss h)

-- If a capture is ready, a loop over all captures takes one.
abbrev Finds : {F : Type 0} → Option (ℕ × (F × List (Slot F))) → Type 0
Finds none = ⊥
Finds (some x) = Unit

shift-Finds :
    {F : Type 0} (s : Slot F) (o : Option (ℕ × (F × List (Slot F)))) → Finds o → Finds (shift s o)
shift-Finds s none h = elim h [ ]
shift-Finds s (some x) h = tt

pick-Finds :
    {F : Type 0} (b : Bool) (s : Slot F) (ss : List (Slot F)) (o : Option (ℕ × (F × List (Slot F))))
    → (b ≡ true) ⊎ Finds o
    → Finds (pick b s ss o)
pick-Finds true s ss o h = tt
pick-Finds false s ss o (inl h) = cc
pick-Finds false s ss o (inr h) = shift-Finds s o h

take_from-Finds :
    {F : Type 0} (i : ℕ) (s : Slot F) (ss : List (Slot F))
    → slot_at i ss ≡ some s
    → s.frame_ready ≡ true
    → Finds (take_from zero ss)
unfolding take_from
take_from-Finds i s [] h k = absurd (none≢some h)
take_from-Finds zero s (t ∷ ss) h k =
    pick-Finds t.frame_ready t ss (take_from zero ss)
      (inl (ap (λ (x : Slot _). x.frame_ready) (some_inj h) ∙ k))
take_from-Finds (suc i) s (t ∷ ss) h k =
    pick-Finds t.frame_ready t ss (take_from zero ss) (inr (take_from-Finds i s ss h k))

ready-positive :
    {F : Type 0} (i : ℕ) (s : Slot F) (ss : List (Slot F))
    → slot_at i ss ≡ some s
    → s.frame_ready ≡ true
    → 0 < ready ss
ready-positive i s [] h k = absurd (none≢some h)
ready-positive zero s (t ∷ ss) h k =
    ground (arith, ap (λ (x : Slot _). x.frame_ready) (some_inj h), k)
ready-positive (suc i) s (t ∷ ss) h k = ground (arith, ready-positive i s ss h k)

-- The encoder thread has not ended.
abbrev pub IsAlive : Worker → Type 0
IsAlive waiting = Unit
IsAlive ended = ⊥
IsAlive (encoding k) = Unit

-- The steps that are needed at most until every capture that is ready is taken
abbrev load : ℕ → Worker → ℕ
load n waiting = 2 * n
load n ended = 2 * n
load n (encoding k) = 2 * n + 1

-- The frame of a capture that is ready is passed on within `n` steps.
abbrev Passes : {F : Type 0} → ℕ → ℕ → Slot F → Type 0
Passes {F} n i s =
    (st : Frames F)
    → st.worker_running ≡ true
    → IsAlive st.worker
    → slot_at i st.slots ≡ some s
    → load (ready st.slots) st.worker ≤ n
    → Has (i, s.latest_frame) (work_all n st)

go_on-Has :
    {F : Type 0} (n i : ℕ) (s : Slot F) (st : Frames F) (o : Option (ℕ × (F × List (Slot F))))
    → Passes n i s
    → st.worker_running ≡ true
    → slot_at i st.slots ≡ some s
    → Fewer st.slots o
    → Stays i s o
    → (Finds o × (2 * ready st.slots ≤ suc n)) ⊎ (2 * ready st.slots ≤ n)
    → Has (i, s.latest_frame) (with_output (go_on st o).1 (work_all n (go_on st o).0))
unfolding go_on
go_on-Has n i s st none ih run h fewer stays (inl (found, le)) = elim found [ ]
go_on-Has n i s st none ih run h fewer stays (inr le) =
    ih (record st { worker = waiting }) run tt h le
go_on-Has n i s st (some (j, (f, ss))) ih run h fewer (inl (e, k)) le = inl (rw (e, k) refl)
go_on-Has n i s st (some (j, (f, ss))) ih run h fewer (inr kept) (inl (found, le)) = inr (
    ih (record st { slots = ss; worker = encoding (suc j) }) run tt kept (omega (arith, fewer, le)))
go_on-Has n i s st (some (j, (f, ss))) ih run h fewer (inr kept) (inr le) = inr (
    ih (record st { slots = ss; worker = encoding (suc j) }) run tt kept (omega (arith, fewer, le)))

work_at-Has :
    {F : Type 0} (n i : ℕ) (s : Slot F) (st : Frames F) (w : Worker)
    → Passes n i s
    → st.worker_running ≡ true
    → IsAlive w
    → slot_at i st.slots ≡ some s
    → s.frame_ready ≡ true
    → load (ready st.slots) w ≤ suc n
    → Has (i, s.latest_frame) (with_output (work_at st w).1 (work_all n (work_at st w).0))
unfolding work_at
work_at-Has n i s st ended ih run alive h k le = elim alive [ ]
work_at-Has n i s st (encoding from) ih run alive h k le =
    go_on-Has n i s st (take_from from st.slots) ih run h (take_from-Fewer from st.slots)
      (take_from-Stays from i s st.slots h) (inr (omega (arith, le)))
work_at-Has {F} n i s st waiting ih run alive h k le =
    let here =
      go_on-Has n i s st (take_from zero st.slots) ih run h (take_from-Fewer zero st.slots)
        (take_from-Stays zero i s st.slots h) (inl (take_from-Finds i s st.slots h k, le)) in
    let at : work_at st waiting ≡ go_on st (take_from zero st.slots) =
      ap
        (λ b.
          if b then go_on st (take_from zero st.slots) else (record st { worker = ended }, none))
        run in
    subst
      (λ (r : Frames F × Option (ℕ × F)).
        Has (i, s.latest_frame) (with_output r.1 (work_all n r.0)))
      (sym at) here

work_all-Passes : {F : Type 0} (n i : ℕ) (s : Slot F) → s.frame_ready ≡ true → Passes n i s
unfolding work_all work
work_all-Passes zero i s k st run alive h le = absurd (none_left st.worker alive le)
  where
    none_left : (w : Worker) → IsAlive w → load (ready st.slots) w ≤ 0 → ⊥
    none_left waiting a b = omega (arith, b, ready-positive i s st.slots h k)
    none_left ended a b = a
    none_left (encoding j) a b = omega (arith, b)
work_all-Passes (suc n) i s k st run alive h le =
    work_at-Has n i s st st.worker (work_all-Passes n i s k) run alive h k le

slot_at-store :
    {F : Type 0} (i : ℕ) (f : F) (ss : List (Slot F))
    → i < length ss
    → slot_at i (store i f ss) ≡ some (record { latest_frame = f; frame_ready = true })
unfolding store
slot_at-store i f [] h = absurd (omega (arith, h))
slot_at-store zero f (s ∷ ss) h = refl
slot_at-store (suc i) f (s ∷ ss) h = slot_at-store i f ss (omega (arith, h))

length-store : {F : Type 0} (i : ℕ) (f : F) (ss : List (Slot F)) → length (store i f ss) ≡ length ss
unfolding store
length-store i f [] = refl
length-store zero f (s ∷ ss) = refl
length-store (suc i) f (s ∷ ss) = ground (arith, length-store i f ss)

ready-le : {F : Type 0} (ss : List (Slot F)) → ready ss ≤ length ss
ready-le [] = omega arith
ready-le (s ∷ ss) = ground (arith, ready-le ss)

load-le : (n m : ℕ) (w : Worker) → n ≤ m → load n w ≤ 2 * m + 1
load-le n m waiting h = omega (arith, h)
load-le n m ended h = omega (arith, h)
load-le n m (encoding k) h = omega (arith, h)

-- Every capture is encoded in turn: while the sender runs and its encoder thread has not ended, a frame
-- that is captured is passed on to be encoded within one more than twice as many steps of the encoder
-- thread as there are captures, wherever the thread stands and whichever other captures are ready, if no
-- other frame is captured meanwhile.
pub work_all-capture :
    {F : Type 0} (st : Frames F) (i : ℕ) (f : F)
    → st.worker_running ≡ true
    → IsAlive st.worker
    → i < length st.slots
    → Has (i, f) (work_all (2 * length st.slots + 1) (capture st i f))
unfolding capture
work_all-capture st i f run alive h =
    let le : ready (store i f st.slots) ≤ length st.slots =
      omega (arith, ready-le (store i f st.slots), length-store i f st.slots) in
    work_all-Passes (2 * length st.slots + 1) i (record { latest_frame = f; frame_ready = true })
      refl (capture st i f) run alive (slot_at-store i f st.slots h)
      (load-le (ready (store i f st.slots)) (length st.slots) st.worker le)
