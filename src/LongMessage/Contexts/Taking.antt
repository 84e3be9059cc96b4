-- ===== src/LongMessage/Contexts/Taking.antt =====
-- The bytes of a fragment are taken into a context: the loop of CBUSLongMessageEx's receiving half.
use cbuspico_lib.Common.{
  ℕ, zero, suc, ◌+◌, ◌^◌, ◌≤◌, ◌<◌, ◌≡◌, refl, sym, ap, ap₂, ◌∙◌, subst, ◌⊎◌, inl, inr, Bool, true,
  false, List, [], ◌∷◌, arith, leb, ◌==◌, ==_iff, Bool-cases, length, set, take, length-set,
  get_or-set, u16, u32,
}
use cbuspico_lib.Frame.{CanFrame}
use cbuspico_lib.LongMessage.{Delivery, complete, byte}
use cbuspico_lib.LongMessage.Receive.Taking.{at, Carries, take-eq, arrival, Wanted}
use cbuspico_lib.LongMessage.Contexts.{ReceiveContext}
use cbuspico_lib.LongMessage.Contexts.Crc.{crc16}
use cbuspico_lib.LongMessage.Contexts.Receive.{
  copy, deliver, take_byte, final_status, status_of, take_fragment,
}

-- A context that has the first `k` bytes of a message, with the checksum `crc` in its header.
pub record IsReceiving (msg : List ℕ) (w : Wanted) (len crc k : ℕ) (c : ReceiveContext)
    : Type 0 where
  pub busy : c.in_use ≡ true
  pub stream : c.receive_stream_id ≡ w.stream
  pub canid : c.sender_canid ≡ w.canid
  pub sequence : c.expected_next_receive_sequence_num ≡ w.sequence
  pub expecting : c.incoming_message_length ≡ length msg
  pub checksum : c.incoming_message_crc ≡ crc
  pub room : length c.buffer ≡ len
  pub index : c.receive_buffer_index ≡ k
  pub received : c.incoming_bytes_received ≡ k
  pub so_far : (i : ℕ) → i < k → at c.buffer i ≡ at msg i

-- The header has no checksum, or the receiver checks it and it is the message's.
abbrev pub IsChecked : Bool → List ℕ → ℕ → Type 0
IsChecked use_crc msg crc = (crc ≡ 0) ⊎ ((use_crc ≡ true) × (crc ≡ crc16 msg))

-- More to come, or the message is delivered and the context is free.
unfoldable pub Outcome : List ℕ → Wanted → ℕ → ℕ → ℕ → ReceiveContext × List Delivery → Type 0
Outcome msg w len crc n (c, calls) =
    ((n < length msg) × ((calls ≡ []) × IsReceiving msg w len crc n c))
    ⊎ ((length msg ≤ n) × ((calls ≡ arrival msg w.stream ∷ []) × (c.in_use ≡ false)))

stored_so_far :
    {msg : List ℕ} {w : Wanted} {len crc : ℕ} (c : ReceiveContext) (k b i : ℕ)
    → k < length msg
    → length msg ≤ len
    → b ≡ at msg k
    → IsReceiving msg w len crc k c
    → i < k + 1
    → at (set c.buffer c.receive_buffer_index b) i ≡ at msg i
stored_so_far {msg} c k b i lt fits e s lt' =
    let read = get_or-set c.buffer c.receive_buffer_index i b 0 (omega (arith, s.index, s.room)) in
    elim (Bool-cases (k == i)) [
      | inl here ↦
          let same_place : k ≡ i = (==_iff k i).0 here in
          let old : b ≡ at msg i = e ∙ ap (at msg) same_place in ground (arith, read, s.index, old)
      | inr there ↦ ground (arith, read, s.index, s.so_far i)
    ]

status_of-complete :
    (use_crc : Bool) (msg : List ℕ) (crc : ℕ)
    → IsChecked use_crc msg crc
    → status_of use_crc crc (crc16 msg) ≡ complete
status_of-complete use_crc msg crc (inl zero_crc) =
    subst (λ x. status_of use_crc x (crc16 msg) ≡ complete) (sym zero_crc)
      (elim use_crc as (λ u. status_of u 0 (crc16 msg) ≡ complete) [ true ↦ refl | false ↦ refl ])
status_of-complete use_crc msg crc (inr (checks, agrees)) =
    subst (λ u. status_of u crc (crc16 msg) ≡ complete) (sym checks)
      (subst (λ x. status_of true crc x ≡ complete) agrees
        (elim (Bool-cases (crc == 0)) [
          | inl nothing ↦ rw ((==_iff crc 0).0 nothing) refl
          | inr something ↦
              let equal : (crc == crc) ≡ true = (==_iff crc crc).1 refl in
              rw (something, equal) refl
        ]))

module _ (use_crc : Bool) (msg : List ℕ) (w : Wanted) (len crc : ℕ) (short : length msg < 2 ^ 16)
    (fits : length msg ≤ len) (checked : IsChecked use_crc msg crc) where
  take_byte-IsReceiving :
      {c : ReceiveContext} (k b now : ℕ)
      → k < length msg
      → b ≡ at msg k
      → IsReceiving msg w len crc k c
      → IsReceiving msg w len crc (k + 1) (take_byte c b now)
  take_byte-IsReceiving {c} k b now lt e s = record {
    busy = s.busy;
    stream = s.stream;
    canid = s.canid;
    sequence = s.sequence;
    expecting = s.expecting;
    checksum = s.checksum;
    room = length-set c.buffer c.receive_buffer_index b ∙ s.room;
    index = omega (arith, s.index);
    received = omega (arith, s.received);
    so_far = λ i lt'. stored_so_far c k b i lt fits e s lt';
  }

  delivered :
      (c : ReceiveContext)
      → IsReceiving msg w len crc (length msg) c
      → deliver c (final_status use_crc c) ≡ arrival msg w.stream
  delivered c s =
      let whole : take c.receive_buffer_index c.buffer ≡ msg =
        take-eq c.receive_buffer_index c.buffer msg s.index (omega (arith, s.index, s.room))
          (λ i lt. s.so_far i (omega (arith, s.index))) in
      let word : c.receive_buffer_index ≡ u16 c.receive_buffer_index = omega (arith, s.index) in
      let status =
        ap₂ (λ x y. status_of use_crc x (crc16 y)) s.checksum
          (ap (λ n. take n c.buffer) (sym word) ∙ whole)
        ∙ status_of-complete use_crc msg crc checked in
      ap (λ x. deliver c x) status
      ∙ ap₂ (λ b i. record { fragment = b; stream_id = i; status = complete }) whole s.stream

  copy_lem :
      (f : CanFrame) (now k j rounds : ℕ) (c : ReceiveContext)
      → Carries msg k f
      → k + j < length msg
      → j + rounds ≡ 5
      → IsReceiving msg w len crc (k + j) c
      → Outcome msg w len crc (k + 5) (copy use_crc len c f now j rounds)
  unfolding copy Outcome
  copy_lem f now k j zero c carries lt five s =
      inl (omega arith, (refl, subst (λ n. IsReceiving msg w len crc n c) (omega arith) s))
  copy_lem f now k j (suc rounds) c carries lt five s =
      let b = byte f (j + 3) in
      let taken = take_byte-IsReceiving (k + j) b now lt (carries j (omega arith) lt) s in
      elim (Bool-cases (leb (length msg) (k + j + 1))) [
        | inl last ↦
            let all : k + j + 1 ≡ length msg = ground arith in
            let whole = subst (λ n. IsReceiving msg w len crc n (take_byte c b now)) all taken in
            let done : leb c.incoming_message_length (u32 (c.incoming_bytes_received + 1)) ≡ true =
              ground (arith, s.expecting, s.received) in
            rw done
              (inr (omega arith, (ap (λ x. x ∷ []) (delivered (take_byte c b now) whole), refl)))
        | inr other ↦
            let going : leb c.incoming_message_length (u32 (c.incoming_bytes_received + 1))
                ≡ false =
              ground (arith, s.expecting, s.received) in
            let room : leb len (u32 (c.receive_buffer_index + 1)) ≡ false =
              ground (arith, s.index) in
            rw (going, room)
              (copy_lem f now k (j + 1) rounds (take_byte c b now) carries (ground arith)
                (omega arith)
                (subst (λ n. IsReceiving msg w len crc n (take_byte c b now)) (omega arith) taken))
      ]

  -- The fragment that the context waits for.
  pub take_fragment_lem :
      (f : CanFrame) (now k : ℕ) (c : ReceiveContext)
      → Carries msg k f
      → k < length msg
      → byte f 2 ≡ w.sequence
      → w.sequence < 256
      → IsReceiving msg w len crc k c
      → Outcome msg
          (record w { sequence = w.sequence + 1 })
          len
          crc
          (k + 5)
          (take_fragment use_crc len c f now)
  unfolding take_fragment Outcome
  take_fragment_lem f now k c carries lt number small s =
      let next : (byte f 2 == c.expected_next_receive_sequence_num) ≡ true =
        ground (arith, s.sequence) in
      rw next
        (elim (copy_lem f now k 0 5 c carries (omega arith) (omega arith)
          (subst (λ n. IsReceiving msg w len crc n c) (omega arith) s)) [
            | inl (more, (nothing, r)) ↦ inl (
              more,
              (
                nothing,
                record {
                  busy = r.busy;
                  stream = r.stream;
                  canid = r.canid;
                  sequence = omega (arith, r.sequence);
                  expecting = r.expecting;
                  checksum = r.checksum;
                  room = r.room;
                  index = r.index;
                  received = r.received;
                  so_far = r.so_far;
                },
              ),
            )
            | inr (last, (all, idle)) ↦ inr (last, (all, idle))
          ])
