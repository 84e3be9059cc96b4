-- ===== src/LongMessage/Contexts/Owners.antt =====
-- Which context a stream and sender have, in processReceivedMessageFragment of CBUSLongMessageEx: their next fragment goes
-- there, and the frames of others do not.
use cbuspico_lib.Common.{
  ℕ, zero, suc, ◌+◌, ◌^◌, ◌≤◌, ◌<◌, bit_and, ◌≡◌, refl, sym, ap, ap₂, ◌∙◌, subst, ◌≢◌, ◌⊎◌, inl,
  inr, Bool, true, false, ◌&&◌, none, some, List, [], ◌∷◌, arith, leb, ◌==◌, ==_iff, Bool-cases,
  Option-cases, length, get_elem?, set,
}
use cbuspico_lib.Frame.{CanFrame}
use cbuspico_lib.LongMessage.{Delivery, byte}
use cbuspico_lib.LongMessage.Receive.{subscribed}
use cbuspico_lib.LongMessage.Receive.Taking.{Carries, arrival, Wanted}
use cbuspico_lib.LongMessage.Contexts.{ReceiveContext, find}
use cbuspico_lib.LongMessage.Contexts.Receive.{
  copy, take_byte, take_fragment, opened, is_free, belongs, handle,
}
use cbuspico_lib.LongMessage.Contexts.Taking.{IsReceiving, IsChecked, Outcome, take_fragment_lem}
use cbuspico_lib.LongMessage.Contexts.Places.{
  find-FoundAt, find-only, get_elem?-set_self, get_elem?-set_ne, get_elem?-set_found,
}

-- The stream and the sender that a context is for.
abbrev pub KeepsOwner : ReceiveContext → ReceiveContext → Type 0
KeepsOwner c c' = (c'.receive_stream_id ≡ c.receive_stream_id) × (c'.sender_canid ≡ c.sender_canid)

copy-KeepsOwner :
    (use_crc : Bool) (len : ℕ) (c : ReceiveContext) (f : CanFrame) (now j rounds : ℕ)
    → KeepsOwner c (copy use_crc len c f now j rounds).0
unfolding copy
copy-KeepsOwner use_crc len c f now j zero = (refl, refl)
copy-KeepsOwner use_crc len c f now j (suc rounds) =
    let taken = take_byte c (byte f (j + 3)) now in
    elim (Bool-cases (leb taken.incoming_message_length taken.incoming_bytes_received)) [
      | inl last ↦ rw last (refl, refl)
      | inr going ↦ elim (Bool-cases (leb len taken.receive_buffer_index)) [
        | inl full ↦ rw (going, full) (refl, refl)
        | inr room ↦ rw (going, room) (copy-KeepsOwner use_crc len taken f now (j + 1) rounds)
      ]
    ]

take_fragment-KeepsOwner :
    (use_crc : Bool) (len : ℕ) (c : ReceiveContext) (f : CanFrame) (now : ℕ)
    → KeepsOwner c (take_fragment use_crc len c f now).0
unfolding take_fragment
take_fragment-KeepsOwner use_crc len c f now =
    elim (Bool-cases (byte f 2 == c.expected_next_receive_sequence_num)) [
      | inl next ↦ rw next (copy-KeepsOwner use_crc len c f now 0 5)
      | inr wrong ↦ rw wrong (refl, refl)
    ]

-- A frame, or a context in use, of the stream and sender.
abbrev pub from_sender : Wanted → CanFrame → Bool
from_sender w f = (byte f 1 == w.stream) && (bit_and f.id 0x7F == w.canid)

abbrev pub ours : Wanted → ReceiveContext → Bool
ours w c = (c.in_use && c.receive_stream_id == w.stream) && c.sender_canid == w.canid

-- A context is in use for a stream and a sender, and no other is.
pub record Hosts (w : Wanted) (i : ℕ) (c : ReceiveContext) (cs : List ReceiveContext) : Type 0 where
  pub here : get_elem? cs i ≡ some c
  pub mine : ours w c ≡ true
  pub others : (j : ℕ) (d : ReceiveContext) → j ≢ i → get_elem? cs j ≡ some d → ours w d ≡ false

-- Writing another context, not for this stream and sender, changes nothing for the one that is.
set-Hosts :
    (w : Wanted) (i j : ℕ) (c d : ReceiveContext) (cs : List ReceiveContext)
    → j ≢ i
    → ours w d ≡ false
    → Hosts w i c cs
    → Hosts w i c (set cs j d)
set-Hosts w i j c d cs ne other h = record {
  here = get_elem?-set_ne cs j i d ne ∙ h.here;
  mine = h.mine;
  others = λ k e ne' found. elim (Bool-cases (j == k)) [
    | inl same_place ↦
        let at_place : get_elem? (set cs j d) j ≡ some e =
          ap (get_elem? (set cs j d)) ((==_iff j k).0 same_place) ∙ found in
        subst (λ x. ours w x ≡ false) (get_elem?-set_found cs j e d at_place) other
    | inr apart ↦ h.others k e ne' (sym (get_elem?-set_ne cs j k d (λ q. ground arith)) ∙ found)
  ];
}

-- A context that is not for this stream and sender lies elsewhere.
apart_from :
    (w : Wanted) (i j : ℕ) (c d : ReceiveContext) (cs : List ReceiveContext)
    → Hosts w i c cs
    → get_elem? cs j ≡ some d
    → ours w d ≡ false
    → j ≢ i
apart_from w i j c d cs h found other e =
    let same_entry : some c ≡ some d = sym h.here ∙ ap (get_elem? cs) (sym e) ∙ found in
    let entry : c ≡ d =
      ap (λ o. elim o as (λ x. ReceiveContext) [ none ↦ c | some x ↦ x ]) same_entry in
    let mine = ap (ours w) (sym entry) ∙ h.mine in ground arith

-- A frame of another stream or sender leaves the context as it is, and makes no other one for its stream and sender.
pub other-Hosts :
    (use_crc : Bool) (len : ℕ) (ids : List ℕ) (w : Wanted) (i : ℕ) (c : ReceiveContext)
    (cs : List ReceiveContext) (f : CanFrame) (now : ℕ)
    → from_sender w f ≡ false
    → Hosts w i c cs
    → Hosts w i c (handle use_crc len ids cs f now).0
unfolding handle
other-Hosts use_crc len ids w i c cs f now differs h = elim (Bool-cases (byte f 2 == 0)) [
  | inl is_header ↦ elim (Bool-cases (byte f 7 == 0 && subscribed ids (byte f 1))) [
    | inr ignored ↦ rw (is_header, ignored) h
    | inl opens ↦ elim (Option-cases (find is_free cs)) [
      | inl full ↦ rw (is_header, opens, full) h
      | inr ((j, d), found) ↦
          let (at_j, free) = find-FoundAt is_free cs j d found in
          let not_ours : ours w d ≡ false = ground arith in
          let still_not : ours w (opened d len f now) ≡ false = ground arith in
          rw (is_header, opens, found)
            (set-Hosts w i j c (opened d len f now) cs (apart_from w i j c d cs h at_j not_ours)
              still_not h)
    ]
  ]
  | inr fragment ↦ elim (Option-cases (find (belongs f) cs)) [
    | inl nobody ↦ rw (fragment, nobody) h
    | inr ((j, d), found) ↦
        let (at_j, belonging) = find-FoundAt (belongs f) cs j d found in
        let d' = (take_fragment use_crc len d f now).0 in
        let (stream, canid) = take_fragment-KeepsOwner use_crc len d f now in
        let not_ours : ours w d ≡ false = ground arith in
        let still_not : ours w d' ≡ false = ground arith in
        rw (fragment, found)
          (set-Hosts w i j c d' cs (apart_from w i j c d cs h at_j not_ours) still_not h)
  ]
]

-- The next fragment of a message: bytes from `k` on, with the number `sequence`.
pub record IsNext (msg : List ℕ) (w : Wanted) (k : ℕ) (f : CanFrame) : Type 0 where
  pub stream : byte f 1 ≡ w.stream
  pub canid : bit_and f.id 0x7F ≡ w.canid
  pub number : byte f 2 ≡ w.sequence
  pub carries : Carries msg k f

belongs-ours :
    (w : Wanted) (f : CanFrame) (d : ReceiveContext)
    → byte f 1 ≡ w.stream
    → bit_and f.id 0x7F ≡ w.canid
    → belongs f d ≡ ours w d
belongs-ours w f d stream canid =
    ap₂ (λ s i. (d.in_use && d.receive_stream_id == s) && d.sender_canid == i) stream canid

-- More of the message is there, in a context for it alone; or the handler was called with the whole message.
abbrev pub Stepped : List ℕ → Wanted → ℕ → ℕ → ℕ → ℕ → List ReceiveContext × List Delivery → Type 0
Stepped msg w len crc i n (cs, calls) =
    ((c : ReceiveContext) × ((n < length msg)
        × ((calls ≡ []) × (Hosts w i c cs × IsReceiving msg w len crc n c))))
    ⊎ (calls ≡ arrival msg w.stream ∷ [])

module _ (use_crc : Bool) (msg : List ℕ) (len crc : ℕ) (short : length msg < 2 ^ 16)
    (fits : length msg ≤ len) (checked : IsChecked use_crc msg crc) where
  pub next-Stepped :
      (ids : List ℕ) (w : Wanted) (i k : ℕ) (c : ReceiveContext) (cs : List ReceiveContext)
      (f : CanFrame) (now : ℕ)
      → IsNext msg w k f
      → k < length msg
      → 0 < w.sequence
      → w.sequence < 256
      → Hosts w i c cs
      → IsReceiving msg w len crc k c
      → Stepped msg
          (record w { sequence = w.sequence + 1 })
          len
          crc
          i
          (k + 5)
          (handle use_crc len ids cs f now)
  unfolding handle Outcome
  next-Stepped ids w i k c cs f now next lt pos small h r =
      let fragment : (byte f 2 == 0) ≡ false = ground (arith, next.number) in
      let same_owner = λ (d : ReceiveContext). belongs-ours w f d next.stream next.canid in
      let found =
        find-only (belongs f) cs i c h.here (same_owner c ∙ h.mine)
          (λ j d ne e. same_owner d ∙ h.others j d ne e) in
      let c' = (take_fragment use_crc len c f now).0 in
      let kept = take_fragment-KeepsOwner use_crc len c f now in
      rw (fragment, found)
        (elim (take_fragment_lem use_crc msg w len crc short fits checked f now k c next.carries lt
          next.number small r) [
            | inr (last, (all, idle)) ↦ inr all
            | inl (more, (nothing, r')) ↦ inl (
              c',
              (
                more,
                (
                  nothing,
                  (
                    record {
                      here = get_elem?-set_self cs i c c' h.here;
                      mine = ground (arith, r'.busy, r'.stream, r'.canid);
                      others = λ j d ne e.
                          h.others j d ne (sym (get_elem?-set_ne cs i j c' (λ q. ne (sym q))) ∙ e);
                    },
                    r',
                  ),
                ),
              ),
            )
          ])
