-- ===== src/Node/Commands/Learn.antt =====
-- Teaching a module an event: after EVLRN the event, when it is heard, reaches the application.
use cbuspico_lib.Common.{
  ℕ, ◌^◌, ◌≤◌, ◌<◌, ◌≡◌, refl, sym, ap, ◌∙◌, subst, true, false, some, arith, leb, ◌==◌,
  if◌then◌else◌, lt→ltb,
}
use cbuspico_lib.Frame.{CanFrame}
use cbuspico_lib.Config.{Config, Driver, EventInfo, ev_info_unused, event_eq}
use cbuspico_lib.Config.Events.{
  read_event, write_event, write_event_ev, update_ev_hash_entry, find_existing_event,
  find_event_space,
}
use cbuspico_lib.Config.Events.Find.{IsHashed}
use cbuspico_lib.Config.Events.Slots.{IsPlaced, IsKept, IsKept-trans, IsPlaced-IsKept}
use cbuspico_lib.Config.Events.Written.{
  write_event-IsKept, read_event-write_event, write_event_ev-IsKept, read_event-write_event_ev,
}
use cbuspico_lib.Config.Events.Learn.{find_existing_event-updated}
use cbuspico_lib.Node.{Node}
use cbuspico_lib.Node.Sending.{send_wrack, send_opc_my_nn, send_msg_my_nn, send_msg_nn}
use cbuspico_lib.Node.Commands.{event_of, slot_for, learn_in, do_evlrn}
use cbuspico_lib.Node.Events.{HandlerCall, event_handler_call, note_event, parse_cbus_event}

module _ {Bus : Type 0} (d : Driver Bus) where
  -- A configuration that an event can be learned in: the slots have room for a variable, the hash table is right,
  -- the event is a proper one that is not stored yet, and there is a free slot.
  pub record IsTeachable (c : Config Bus) (ev : EventInfo) : Type 0 where
    pub placed : IsPlaced c
    pub variables : 5 ≤ c.bytes_per_event
    pub hashed : IsHashed d c
    pub proper : event_eq ev ev_info_unused ≡ false
    pub node : ev.node_number < 2 ^ 16
    pub number : ev.event_number < 2 ^ 16
    pub new : find_existing_event d c ev ≡ c.max_events
    pub free : find_event_space c < c.max_events

  module _ (c : Config Bus) (ev : EventInfo) (val : ℕ) (t : IsTeachable c ev) where
    abbrev slot : ℕ
    slot = find_event_space c

    abbrev named : Config Bus
    named = write_event d c slot ev true

    named-IsKept : IsKept c named
    named-IsKept = write_event-IsKept d slot ev t.placed t.free true

    variable-IsKept : IsKept c (write_event_ev d named slot 1 val)
    variable-IsKept = IsKept-trans named-IsKept (
        write_event_ev-IsKept d slot ev (IsPlaced-IsKept t.placed named-IsKept)
          (rw named-IsKept.slots t.free) 1 val (omega (arith, t.variables, named-IsKept.size)))

    variable-read :
        (j : ℕ)
        → j < c.max_events
        → read_event d (write_event_ev d named slot 1 val) j
          ≡ (if slot == j then ev else read_event d c j)
    variable-read j lt =
        read_event-write_event_ev d slot ev (IsPlaced-IsKept t.placed named-IsKept)
          (rw named-IsKept.slots t.free) 1 val j (omega (arith, named-IsKept.slots)) (omega arith)
          (omega (arith, t.variables, named-IsKept.size))
        ∙ read_event-write_event d slot ev t.placed t.free true j lt t.node t.number

    learn_in-found : find_existing_event d (learn_in d c slot ev 1 val) ev ≡ slot
    unfolding learn_in
    learn_in-found =
        find_existing_event-updated d slot ev t.free (write_event_ev d named slot 1 val)
          variable-IsKept variable-read t.proper t.hashed t.new

    learn_in-slots : (learn_in d c slot ev 1 val).max_events ≡ c.max_events
    unfolding learn_in update_ev_hash_entry
    learn_in-slots = variable-IsKept.slots

    slot_for-slot : slot_for d c ev ≡ slot
    unfolding slot_for
    slot_for-slot =
        let absent : leb c.max_events c.max_events ≡ true = ground arith in rw (t.new, absent) refl

  send_wrack-config : (n : Node Bus) → (send_wrack n).config ≡ n.config
  unfolding send_wrack send_opc_my_nn send_msg_my_nn send_msg_nn
  send_wrack-config n = refl

  send_wrack-handler : (n : Node Bus) → (send_wrack n).event_handler ≡ n.event_handler
  unfolding send_wrack send_opc_my_nn send_msg_my_nn send_msg_nn
  send_wrack-handler n = refl

  do_evlrn-free :
      (n : Node Bus) (val : ℕ)
      → slot_for d n.config (event_of n) < n.config.max_events
      → do_evlrn d n 1 val
        ≡ send_wrack (record n {
          config = learn_in d n.config (slot_for d n.config (event_of n)) (event_of n) 1 val;
        })
  unfolding do_evlrn
  do_evlrn-free n val lt = rw (lt→ltb _ _ lt) refl

  -- What a module does with the messages of one event.
  abbrev pub Calls : Node Bus → CanFrame → HandlerCall → Type 0
  Calls n msg call = (parse_cbus_event d n msg).1 ≡ some call

  handled :
      (n : Node Bus) (msg : CanFrame) (ev : EventInfo) (slot : ℕ)
      → n.event_handler ≡ true
      → event_of (note_event d n msg) ≡ ev
      → find_existing_event d n.config ev ≡ slot
      → slot < n.config.max_events
      → Calls n msg (event_handler_call slot msg)
  unfolding parse_cbus_event note_event
  handled n msg ev slot h e f lt =
      let found : find_existing_event d n.config (event_of (note_event d n msg)) ≡ slot =
        ap (find_existing_event d n.config) e ∙ f in
      let inside = lt→ltb _ _ lt in rw (found, inside, h) refl

  note_event-same :
      (m n : Node Bus) (msg : CanFrame)
      → event_of (note_event d m msg) ≡ event_of (note_event d n msg)
  unfolding note_event
  note_event-same m n msg = refl

  -- Teaching an event to a module in flash mode with an event handler, if the event's two numbers have 16 bits and are
  -- not both 0xFFFF (the mark of a free slot), the event is not stored yet, the slots lie inside the sector and have room
  -- for at least one variable after the event (5 bytes), the hash table describes the stored events and a slot is free:
  -- after doEvlrn for variable 1, a message of that event makes the module call its event handler with the index of
  -- the slot that was free.
  pub do_evlrn-Calls :
      (n : Node Bus) (val : ℕ) (msg : CanFrame)
      → IsTeachable n.config (event_of n)
      → n.event_handler ≡ true
      → event_of (note_event d n msg) ≡ event_of n
      → Calls (do_evlrn d n 1 val) msg (event_handler_call (find_event_space n.config) msg)
  do_evlrn-Calls n val msg t h e =
      let slot = find_event_space n.config in
      let at_slot = slot_for-slot n.config (event_of n) val t in
      let taught =
        do_evlrn-free n val (subst (λ i. i < n.config.max_events) (sym at_slot) t.free) in
      let config : (do_evlrn d n 1 val).config ≡ learn_in d n.config slot (event_of n) 1 val =
        ap (λ (x : Node Bus). x.config) taught
        ∙ send_wrack-config _
        ∙ ap (λ i. learn_in d n.config i (event_of n) 1 val) at_slot in
      handled (do_evlrn d n 1 val) msg (event_of n) slot
        (ap (λ (x : Node Bus). x.event_handler) taught ∙ send_wrack-handler _ ∙ h)
        (note_event-same (do_evlrn d n 1 val) n msg ∙ e)
        (ap (λ x. find_existing_event d x (event_of n)) config
          ∙ learn_in-found n.config (event_of n) val t)
        (rw
          (ap (λ (x : Config Bus). x.max_events) config
            ∙ learn_in-slots n.config (event_of n) val t)
          t.free)
