-- ===== src/LongMessage/Contexts/Safety.antt =====
-- The buffers of the receive contexts of CBUSLongMessageEx, whatever frames arrive.
use cbuspico_lib.Common.{
  ℕ, zero, suc, ◌+◌, ◌^◌, ◌<◌, ◌≡◌, refl, sym, ap, ◌∙◌, subst, inl, inr, Bool, true, false, ◌&&◌,
  Option, none, some, List, [], ◌∷◌, arith, leb, ◌==◌, ==_iff, Bool-cases, Option-cases, some_eq,
  length, get_elem?, set, length-set, length-replicate, sub32,
}
use cbuspico_lib.Frame.{CanFrame}
use cbuspico_lib.LongMessage.{byte}
use cbuspico_lib.LongMessage.Receive.{subscribed}
use cbuspico_lib.LongMessage.Contexts.{
  LongMessageEx, ReceiveContext, SendContext, find, allocate_contexts, release_all,
}
use cbuspico_lib.LongMessage.Contexts.Receive.{
  copy, take_byte, release, take_fragment, opened, is_free, belongs, handle,
  process_received_message_fragment, process_timeouts,
}
use cbuspico_lib.LongMessage.Contexts.Send.{process, send_turn}
use cbuspico_lib.LongMessage.Contexts.Places.{find-FoundAt, get_elem?-set_ne, get_elem?-set_found}

-- No byte was written outside the buffer, it has its length, and in a context in use the next byte has a place there.
pub record IsSafe (len : ℕ) (c : ReceiveContext) : Type 0 where
  pub inside : c.overran ≡ false
  pub whole : length c.buffer ≡ len
  pub bound : c.in_use ≡ true → c.receive_buffer_index < len

abbrev pub AllSafe : ℕ → List ReceiveContext → Type 0
AllSafe len cs = (i : ℕ) (c : ReceiveContext) → get_elem? cs i ≡ some c → IsSafe len c

copy-IsSafe :
    (use_crc : Bool) (len : ℕ) (c : ReceiveContext) (f : CanFrame) (now j rounds : ℕ)
    → len < 2 ^ 32
    → c.overran ≡ false
    → length c.buffer ≡ len
    → c.receive_buffer_index < len
    → IsSafe len (copy use_crc len c f now j rounds).0
unfolding copy
copy-IsSafe use_crc len c f now j zero word within whole bound = record {
  inside = within;
  whole = whole;
  bound = λ busy. bound;
}
copy-IsSafe use_crc len c f now j (suc rounds) word within whole bound =
    let b = byte f (j + 3) in
    let taken = take_byte c b now in
    let whole' = length-set c.buffer c.receive_buffer_index b ∙ whole in
    let within' : taken.overran ≡ false = ground arith in
    let released : IsSafe len (release taken) = record {
      inside = within';
      whole = whole';
      bound = λ busy. absurd (ground arith);
    } in
    elim (Bool-cases (leb taken.incoming_message_length taken.incoming_bytes_received)) [
      | inl last ↦ rw last released
      | inr going ↦ elim (Bool-cases (leb len taken.receive_buffer_index)) [
        | inl full ↦ rw (going, full) released
        | inr room ↦
            rw (going, room)
              (copy-IsSafe use_crc len taken f now (j + 1) rounds word within' whole'
                (ground arith))
      ]
    ]

take_fragment-IsSafe :
    (use_crc : Bool) (len : ℕ) (c : ReceiveContext) (f : CanFrame) (now : ℕ)
    → len < 2 ^ 32
    → c.in_use ≡ true
    → IsSafe len c
    → IsSafe len (take_fragment use_crc len c f now).0
unfolding take_fragment
take_fragment-IsSafe use_crc len c f now word busy s =
    elim (Bool-cases (byte f 2 == c.expected_next_receive_sequence_num)) [
      | inr wrong ↦
          rw wrong
            (record { inside = s.inside; whole = s.whole; bound = λ b. absurd (ground arith) })
      | inl next ↦
          let copied = copy-IsSafe use_crc len c f now 0 5 word s.inside s.whole (s.bound busy) in
          rw next (record { inside = copied.inside; whole = copied.whole; bound = copied.bound })
    ]

set-AllSafe :
    (len i : ℕ) (d : ReceiveContext) (cs : List ReceiveContext)
    → IsSafe len d
    → AllSafe len cs
    → AllSafe len (set cs i d)
set-AllSafe len i d cs s all j c found = elim (Bool-cases (i == j)) [
  | inl same_place ↦
      let at_place : get_elem? (set cs i d) i ≡ some c =
        ap (get_elem? (set cs i d)) ((==_iff i j).0 same_place) ∙ found in
      subst (IsSafe len) (get_elem?-set_found cs i c d at_place) s
  | inr apart ↦ all j c (sym (get_elem?-set_ne cs i j d (λ q. ground arith)) ∙ found)
]

handle-AllSafe :
    (use_crc : Bool) (len : ℕ) (ids : List ℕ) (cs : List ReceiveContext) (f : CanFrame) (now : ℕ)
    → 0 < len
    → len < 2 ^ 32
    → AllSafe len cs
    → AllSafe len (handle use_crc len ids cs f now).0
unfolding handle
handle-AllSafe use_crc len ids cs f now pos word all = elim (Bool-cases (byte f 2 == 0)) [
  | inl is_header ↦ elim (Bool-cases (byte f 7 == 0 && subscribed ids (byte f 1))) [
    | inr ignored ↦ rw (is_header, ignored) all
    | inl opens ↦ elim (Option-cases (find is_free cs)) [
      | inl full ↦ rw (is_header, opens, full) all
      | inr ((i, d), found) ↦
          let free = (find-FoundAt is_free cs i d found).0 in
          let memory = all i d free in
          rw (is_header, opens, found)
            (set-AllSafe len i (opened d len f now) cs
              (record {
                inside = ground (arith, memory.inside, memory.whole);
                whole = length-replicate len 0;
                bound = λ busy. pos;
              })
              all)
    ]
  ]
  | inr fragment ↦ elim (Option-cases (find (belongs f) cs)) [
    | inl nobody ↦ rw (fragment, nobody) all
    | inr ((i, d), found) ↦
        let (at_i, belonging) = find-FoundAt (belongs f) cs i d found in
        let busy : d.in_use ≡ true = ground arith in
        rw (fragment, found)
          (set-AllSafe len i (take_fragment use_crc len d f now).0 cs
            (take_fragment-IsSafe use_crc len d f now word busy (all i d at_i)) all)
  ]
]

cons-AllSafe :
    (len : ℕ) (d : ReceiveContext) (cs : List ReceiveContext)
    → IsSafe len d
    → AllSafe len cs
    → AllSafe len (d ∷ cs)
cons-AllSafe len d cs s all zero c e = subst (IsSafe len) (some_eq d c e) s
cons-AllSafe len d cs s all (suc i) c e = all i c e

tail-AllSafe :
    (len : ℕ) (d : ReceiveContext) (cs : List ReceiveContext)
    → AllSafe len (d ∷ cs)
    → AllSafe len cs
tail-AllSafe len d cs all i c e = all (suc i) c e

timeouts-AllSafe :
    (len timeout now : ℕ) (cs : List ReceiveContext)
    → AllSafe len cs
    → AllSafe len (process_timeouts timeout now cs).0
unfolding process_timeouts
timeouts-AllSafe len timeout now [] all = all
timeouts-AllSafe len timeout now (d ∷ cs) all =
    let rest = timeouts-AllSafe len timeout now cs (tail-AllSafe len d cs all) in
    let safe = all 0 d refl in
    let kept = (process_timeouts timeout now cs).0 in
    elim (Bool-cases (d.in_use && leb timeout (sub32 now d.last_fragment_received))) [
      | inl late ↦ rw late (
          cons-AllSafe len (release d) kept
            (record {
              inside = safe.inside;
              whole = safe.whole;
              bound = λ b. absurd (ground arith);
            })
            rest)
      | inr waiting ↦ rw waiting (cons-AllSafe len d kept safe rest)
    ]

send_turn-receives :
    (m : LongMessageEx) (t1 t2 : ℕ) (o : Option SendContext)
    → ((send_turn m t1 t2 o).0.receive_context ≡ m.receive_context)
      × ((send_turn m t1 t2 o).0.base ≡ m.base)
send_turn-receives m t1 t2 none = (refl, refl)
send_turn-receives m t1 t2 (some c) = (refl, refl)

-- The calls that can change a receive context: a frame comes in, or `process` is called.
pub data Event : Type 0 where
  receives : CanFrame → ℕ → Event
  processes : ℕ → ℕ → ℕ → Bool → Event

unfoldable pub step : LongMessageEx → Event → LongMessageEx
step m (receives f now) = (process_received_message_fragment m f now).0
step m (processes t1 t2 t3 accepted) = (process m t1 t2 t3 accepted).0

unfoldable pub run : LongMessageEx → List Event → LongMessageEx
run m [] = m
run m (e ∷ es) = run (step m e) es

-- With buffers of a length from 1 to what a `uint32_t` counts.
pub record IsWhole (m : LongMessageEx) : Type 0 where
  pub positive : 0 < m.base.receive_buffer_len
  pub word : m.base.receive_buffer_len < 2 ^ 32
  pub safe : AllSafe m.base.receive_buffer_len m.receive_context

step-IsWhole : (m : LongMessageEx) (e : Event) → IsWhole m → IsWhole (step m e)
unfolding step process_received_message_fragment process
step-IsWhole m (receives f now) v = record {
  positive = v.positive;
  word = v.word;
  safe =
      handle-AllSafe m.use_crc m.base.receive_buffer_len m.base.stream_ids m.receive_context f now
        v.positive v.word v.safe;
}
step-IsWhole m (processes t1 t2 t3 accepted) v =
    let timed = record m {
      receive_context = (process_timeouts m.base.receive_timeout t1 m.receive_context).0;
    } in
    let (same_contexts, same_base) =
      send_turn-receives timed t2 t3 (get_elem? m.send_context m.context) in
    let safe =
      timeouts-AllSafe m.base.receive_buffer_len m.base.receive_timeout t1 m.receive_context
        v.safe in
    record {
      positive = subst (λ b. 0 < b.receive_buffer_len) (sym same_base) v.positive;
      word = subst (λ b. b.receive_buffer_len < 2 ^ 32) (sym same_base) v.word;
      safe =
          subst
            (λ b.
              AllSafe b.receive_buffer_len
                (send_turn timed t2 t3 (get_elem? m.send_context m.context)).0.receive_context)
            (sym same_base) (subst (AllSafe m.base.receive_buffer_len) (sym same_contexts) safe);
    }

-- With a buffer length from 1 to 2 ^ 32 - 1, if no byte was written outside a context's buffer so far, every buffer has
-- its length and the contexts in use have room for the next byte, then all this stays so whatever frames come in and
-- however often `process` is called: each byte of a fragment is written inside the buffer.
pub run-IsWhole : (m : LongMessageEx) (es : List Event) → IsWhole m → IsWhole (run m es)
unfolding run
run-IsWhole m [] v = v
run-IsWhole m (e ∷ es) v = run-IsWhole (step m e) es (step-IsWhole m e v)

-- Every buffer that malloc gave has the length that was asked for.
abbrev pub AllLong : ℕ → List ReceiveContext → Type 0
AllLong len [] = Unit {0}
AllLong len (c ∷ cs) = (length c.buffer ≡ len) × AllLong len cs

released_lem : (len : ℕ) (cs : List ReceiveContext) → AllLong len cs → AllSafe len (release_all cs)
unfolding release_all
released_lem len [] h = λ i c e. absurd (ground arith)
released_lem len (d ∷ cs) (whole, rest) =
    cons-AllSafe len (record d { in_use = false; overran = false }) (release_all cs)
      (record { inside = refl; whole = whole; bound = λ b. absurd (ground arith) })
      (released_lem len cs rest)

-- Contexts that are allocated with buffers of a length from 1 on, whatever else is in their memory, have room for the
-- next byte wherever they are in use, and their buffers have that length.
pub allocate_contexts-IsWhole :
    (m : LongMessageEx) (len : ℕ) (rs : List ReceiveContext) (ss : List SendContext)
    → 0 < len
    → len < 2 ^ 32
    → AllLong len rs
    → IsWhole (allocate_contexts m len (some rs) (some ss)).0
unfolding allocate_contexts
allocate_contexts-IsWhole m len rs ss pos word h = record {
  positive = pos;
  word = word;
  safe = released_lem len rs h;
}
