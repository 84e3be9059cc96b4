-- ===== src/Can/Process/Order.antt =====
-- In which order process of CBUS.cpp takes the messages, and how many.
use cbuspico_lib.Common.{
  ◌+◌, ◌≤◌, ◌≡◌, refl, sym, ap, ap₂, ◌∙◌, subst, ◌⊎◌, inl, inr, Bool, true, false, ◌&&◌, not,
  Option, none, some, List, [], ◌∷◌, arith, ltb, if◌then◌else◌, Bool-cases, Option-cases, some_eq,
  length, length-append, u32,
}
use cbuspico_lib.Frame.{CanFrame}
use cbuspico_lib.CircularBuffer.{CircularBuffer}
use cbuspico_lib.CircularBuffer as Ring
use cbuspico_lib.Config.{Driver}
use cbuspico_lib.GridConnect.Server.{Server}
use cbuspico_lib.GridConnect.Server.Send.{Answers}
use cbuspico_lib.GridConnect.Server.Client.{item_at}
use cbuspico_lib.Node.Commands.{data_byte}
use cbuspico_lib.Can.{Can, available, get_next_message, forward, ring_available, next_from}
use cbuspico_lib.Can.Process.{
  Round, gc_available, gc_can_send, any_available, pick, take_own, take_gc, forwarded, round,
  handle_message, handle_picked, call_frame_handler, process_messages, listed,
}

module _ {Bus : Type 0} {P : Type 0} where
  -- The oldest frame left the receive queue and was given to the server.
  abbrev pub Forwards : Round → Can Bus P → CircularBuffer → Can Bus P × Option CanFrame → Type 0
  Forwards r c b (c', msg) =
      (c'.rx_buffer ≡ some (Ring.get b).0)
      × ((msg ≡ item_at b ((Ring.get b).1))
          × ((f : CanFrame)
              → msg ≡ some f
              → c'.gc_server ≡ forward r.answers c.gc_server f (Ring.available (Ring.get b).0)))

  take_own-rx :
      (c : Can Bus P) (o : Option CircularBuffer) → (take_own c o).0.rx_buffer ≡ c.rx_buffer
  take_own-rx c none = refl
  take_own-rx c (some b) = refl

  take_gc-rx : (c : Can Bus P) (o : Option (Server P)) → (take_gc c o).0.rx_buffer ≡ c.rx_buffer
  take_gc-rx c none = refl
  take_gc-rx c (some s) = refl

  forwarded_lem :
      (r : Round) (c : Can Bus P) (gc : Option (Server P)) (rx : CircularBuffer)
      (o : Option CanFrame)
      → c.rx_buffer ≡ some rx
      → c.gc_server ≡ gc
      → let (c', msg) = forwarded r.answers (c, o) in
        (c'.rx_buffer ≡ some rx)
        × ((msg ≡ o)
            × ((f : CanFrame)
                → msg ≡ some f
                → c'.gc_server ≡ forward r.answers gc f (Ring.available rx)))
  forwarded_lem r c gc rx none e e' = (e, (refl, λ f h. absurd (ground arith)))
  forwarded_lem r c gc rx (some g) e e' = (
    e,
    (
      refl,
      λ f h.
          ap₂ (λ s x. forward r.answers s g (ring_available x)) e' e
          ∙ ap (λ x. forward r.answers gc x (Ring.available rx)) (some_eq g f h),
    ),
  )

  -- A frame is taken from the receive queue: no message of the module itself and none of a Grid Connect client is
  -- waiting, a frame is there, and the connection has room for its text.
  abbrev pub takes_frame : Round → Can Bus P → Bool
  takes_frame r c =
      not (ring_available c.node.coe_obj)
      && (not (gc_available c.gc_server) && (available c && gc_can_send c.gc_server r.free))

  abbrev pub Picks : Round → Can Bus P → Type 0
  Picks r c =
      ((takes_frame r c ≡ true)
        × ((b : CircularBuffer) × ((c.rx_buffer ≡ some b) × Forwards r c b (pick r c))))
      ⊎ ((takes_frame r c ≡ false) × ((pick r c).0.rx_buffer ≡ c.rx_buffer))

  -- If no message of the module itself and none of a Grid Connect client is waiting, a frame is in the receive queue, and
  -- the connection has room for its text, then the oldest frame leaves the queue, is the message of the round, and is
  -- given to the server, with the flag whether more frames wait. In every other case the receive queue stays as it is.
  pub pick-Forwards : (r : Round) (c : Can Bus P) → Picks r c
  unfolding pick get_next_message
  pick-Forwards r c = elim (Bool-cases (ring_available c.node.coe_obj)) [
    | inl own ↦ rw own (inr (refl, take_own-rx c c.node.coe_obj))
    | inr no_own ↦ elim (Bool-cases (gc_available c.gc_server)) [
      | inl from_gc ↦ rw (no_own, from_gc) (inr (refl, take_gc-rx c c.gc_server))
      | inr no_gc ↦ elim (Bool-cases (available c && gc_can_send c.gc_server r.free)) [
        | inr blocked ↦ rw (no_own, no_gc, blocked) (inr (refl, refl))
        | inl ready ↦ elim (Option-cases c.rx_buffer) [
          | inl nothing ↦
              let waiting : available c ≡ true = ground arith in
              let full : false ≡ true = ap ring_available (sym nothing) ∙ waiting in
              absurd (ground arith)
          | inr (b, e) ↦
              let (b', slot) = Ring.get b in
              let c1 = record c {
                rx_buffer = some b';
                num_msgs_rcvd = u32 (c.num_msgs_rcvd + 1);
              } in
              rw (no_own, no_gc, ready)
                (inl (
                  refl,
                  (
                    b,
                    (
                      e,
                      subst (λ o. Forwards r c b (forwarded r.answers (next_from c o))) (sym e)
                          (forwarded_lem r c1 c.gc_server b' (item_at b slot) refl refl),
                    ),
                  ),
                ))
        ]
      ]
    ]
  ]

module _ {Bus : Type 0} {P : Type 0} where
  take_own-handled :
      (c : Can Bus P) (o : Option CircularBuffer) → (take_own c o).0.handled ≡ c.handled
  take_own-handled c none = refl
  take_own-handled c (some b) = refl

  take_gc-handled : (c : Can Bus P) (o : Option (Server P)) → (take_gc c o).0.handled ≡ c.handled
  take_gc-handled c none = refl
  take_gc-handled c (some s) = refl

  next_from-handled :
      (c : Can Bus P) (o : Option CircularBuffer) → (next_from c o).0.handled ≡ c.handled
  next_from-handled c none = refl
  next_from-handled c (some b) = refl

  forwarded-handled :
      (a : Answers) (c : Can Bus P) (o : Option CanFrame)
      → (forwarded a (c, o)).0.handled ≡ c.handled
  forwarded-handled a c none = refl
  forwarded-handled a c (some f) = refl

  pick-handled : (r : Round) (c : Can Bus P) → (pick r c).0.handled ≡ c.handled
  unfolding pick get_next_message
  pick-handled r c = elim (Bool-cases (ring_available c.node.coe_obj)) [
    | inl own ↦ rw own (take_own-handled c c.node.coe_obj)
    | inr no_own ↦ elim (Bool-cases (gc_available c.gc_server)) [
      | inl from_gc ↦ rw (no_own, from_gc) (take_gc-handled c c.gc_server)
      | inr no_gc ↦ elim (Bool-cases (available c && gc_can_send c.gc_server r.free)) [
        | inr blocked ↦ rw (no_own, no_gc, blocked) refl
        | inl ready ↦
            let (c1, o) = next_from c c.rx_buffer in
            rw (no_own, no_gc, ready)
              (forwarded-handled r.answers c1 o ∙ next_from-handled c c.rx_buffer)
      ]
    ]
  ]

module _ {Bus : Type 0} {P : Type 0} (d : Driver Bus) where
  handle_message-bound :
      (r : Round) (c : Can Bus P) (msg : CanFrame)
      → length (handle_message d r c msg).handled ≤ length c.handled + 1
  unfolding handle_message call_frame_handler
  handle_message-bound r c msg =
      let wanted : Bool =
        if ltb 0 (length c.opcodes) then listed c.opcodes (data_byte msg 0) else true in
      elim (Bool-cases (c.frame_handler && wanted)) [
        | inl called ↦ rw called (omega (arith, length-append c.handled (msg ∷ [])))
        | inr not_called ↦ rw not_called (omega arith)
      ]

  handle_picked-bound :
      (r : Round) (c : Can Bus P) (p : Can Bus P × Option CanFrame)
      → p.0.handled ≡ c.handled
      → length (handle_picked d r p).handled ≤ length c.handled + 1
  handle_picked-bound r c (c', none) e = omega (arith, ap (length {A = CanFrame}) e)
  handle_picked-bound r c (c', some msg) e =
      omega (arith, ap (length {A = CanFrame}) e, handle_message-bound r c' msg)

  round-bound : (r : Round) (c : Can Bus P) → length (round d r c).handled ≤ length c.handled + 1
  unfolding round
  round-bound r c = handle_picked-bound r c (pick r c) (pick-handled r c)

  -- However many messages are waiting and whether or not frames can be forwarded, a run of the loop calls the frame handler
  -- at most once for each of the rounds that it may take.
  pub process_messages-bound :
      (rounds : List Round) (c : Can Bus P)
      → length (process_messages d rounds c).handled ≤ length c.handled + length rounds
  unfolding process_messages
  process_messages-bound [] c = omega arith
  process_messages-bound (r ∷ rounds) c = elim (Bool-cases (any_available c)) [
    | inl more ↦
        rw more (omega (arith, round-bound r c, process_messages-bound rounds (round d r c)))
    | inr empty ↦ rw empty (omega arith)
  ]
