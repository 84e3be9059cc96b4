-- ===== src/Can/Received.antt =====
-- What CBUSACAN2040::notify_cb of CBUSACAN2040.cpp keeps of the messages that the controller receives.
use cbuspico_lib.Common.{
  ℕ, ◌/◌, ◌%◌, ◌^◌, ◌<◌, ◌≡◌, refl, sym, ap, ◌∙◌, subst, ◌⊎◌, inl, inr, Bool, true, false, ◌&&◌,
  not, Option, some, arith, ltb, if◌then◌else◌, Bool-cases,
}
use cbuspico_lib.Frame.{CanFrame}
use cbuspico_lib.CircularBuffer.{CircularBuffer, put}
use cbuspico_lib.Node.{Node}
use cbuspico_lib.Node.Enumerate.{check_incoming_frame}
use cbuspico_lib.GridConnect.Codec.{not_encodable}
use cbuspico_lib.Can.{Can, Clock, Message, notify_rx, notify_cb, receive, keep_received, frame_of}

-- A message on the bus: an identifier of 11 bits, or of 29 with the flag, and the two flags in the highest bits.
pub record IsOnBus (m : Message) : Type 0 where
  pub word : m.id < 2 ^ 32
  pub identifier : m.id / 2 ^ 31 % 2 ≡ 0 → m.id % 2 ^ 30 < 2 ^ 11

-- What checkIncomingFrame makes of a frame, and whether it is a message.
abbrev outcome : CanFrame → CanFrame × Bool
outcome msg =
    if msg.rtr
    then (record msg { len = 0 }, false)
    else if msg.ext
    then (msg, false)
    else (record msg { len = if ltb 8 msg.len then 8 else msg.len }, ltb 0 msg.len)

check_incoming_frame-outcome :
    {Bus : Type 0} (n : Node Bus) (msg : CanFrame) (t1 t2 : ℕ)
    → (check_incoming_frame n msg t1 t2).1 ≡ outcome msg
unfolding check_incoming_frame
check_incoming_frame-outcome n msg t1 t2 = elim (Bool-cases msg.rtr) [
  | inl request ↦ rw request refl
  | inr no_request ↦ elim (Bool-cases msg.ext) [
    | inl extended ↦ rw (no_request, extended) refl
    | inr standard ↦ rw (no_request, standard) refl
  ]
]

-- A plain frame with data.
abbrev pub is_plain : CanFrame → Bool
is_plain msg = not msg.rtr && (not msg.ext && ltb 0 msg.len)

-- It is kept with at most eight bytes of data.
abbrev pub limited : CanFrame → CanFrame
limited msg = record msg { len = if ltb 8 msg.len then 8 else msg.len }

outcome_lem :
    (msg : CanFrame)
    → ((outcome msg).1 ≡ is_plain msg) × (is_plain msg ≡ true → (outcome msg).0 ≡ limited msg)
outcome_lem msg = elim (Bool-cases msg.rtr) [
  | inl request ↦ rw request (refl, λ e. absurd (ground arith))
  | inr no_request ↦ elim (Bool-cases msg.ext) [
    | inl extended ↦ rw (no_request, extended) (refl, λ e. absurd (ground arith))
    | inr standard ↦ rw (no_request, standard) (refl, λ e. refl)
  ]
]

-- The queue gets the frame, which the Grid Connect server can encode; or nothing happens to it.
abbrev pub Keeps : Message → CircularBuffer → Option CircularBuffer → ℕ → Type 0
Keeps m b after now =
    ((is_plain (frame_of m) ≡ true)
      × ((after ≡ some (put b now (limited (frame_of m))))
          × (not_encodable (limited (frame_of m)) ≡ false)))
    ⊎ ((is_plain (frame_of m) ≡ false) × (after ≡ some b))

limited-encodable :
    (m : Message)
    → IsOnBus m
    → is_plain (frame_of m) ≡ true
    → not_encodable (limited (frame_of m)) ≡ false
limited-encodable m v plain =
    let small = v.identifier (ground arith) in
    let no_request : m.id / 2 ^ 30 % 2 ≡ 0 = ground arith in
    let standard : m.id / 2 ^ 31 % 2 ≡ 0 = ground arith in
    let word = v.word in let low : m.id < 2 ^ 11 = omega arith in ground arith

module _ {Bus : Type 0} {P : Type 0} where
  keep_received-Keeps :
      (c : Can Bus P) (b : CircularBuffer) (m : Message) (now : ℕ) (n : Node Bus)
      (r : CanFrame × Bool)
      → IsOnBus m
      → c.rx_buffer ≡ some b
      → r.1 ≡ is_plain (frame_of m)
      → (is_plain (frame_of m) ≡ true → r.0 ≡ limited (frame_of m))
      → Keeps m b (keep_received c b now (n, r)).rx_buffer now
  keep_received-Keeps c b m now n (f, true) v e kept what =
      let plain = sym kept in
      inl (plain, (ap (λ g. some (put b now g)) (what plain), limited-encodable m v plain))
  keep_received-Keeps c b m now n (f, false) v e kept what = inr (sym kept, e)

  -- A message that the controller receives from the bus, with an 11-bit identifier, no request and with data, is put into
  -- the receive queue, with at most eight bytes, and encodeGC accepts the frame: none that later waits for a Grid
  -- Connect client is refused there. Any other message leaves the queue as it is.
  pub notify_cb-Keeps :
      (c : Can Bus P) (b : CircularBuffer) (m : Message) (t : Clock)
      → IsOnBus m
      → c.rx_buffer ≡ some b
      → Keeps m b (notify_cb c notify_rx m t).rx_buffer t.insert_time
  unfolding notify_cb
  notify_cb-Keeps c b m t v e =
      let checked = check_incoming_frame c.node (frame_of m) t.conflict_time t.rtr_time in
      let found = check_incoming_frame-outcome c.node (frame_of m) t.conflict_time t.rtr_time in
      subst (λ o. Keeps m b (receive c o m t).rx_buffer t.insert_time) (sym e)
        (keep_received-Keeps c b m t.insert_time checked.0 checked.1 v e
          (ap (λ r. r.1) found ∙ (outcome_lem (frame_of m)).0)
          (λ plain. ap (λ r. r.0) found ∙ (outcome_lem (frame_of m)).1 plain))
