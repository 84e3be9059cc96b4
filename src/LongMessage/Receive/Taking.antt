-- ===== src/LongMessage/Receive/Taking.antt =====
-- The bytes of a fragment are taken in: the copying loop of CBUSLongMessage's receiving half.
use cbuspico_lib.Common.{
  ℕ, zero, suc, ◌+◌, ◌^◌, ◌≤◌, ◌<◌, ◌≡◌, refl, ap, ap₂, ◌∙◌, subst, ◌⊎◌, inl, inr, true, false,
  List, [], ◌∷◌, arith, leb, ◌==◌, ==_iff, Bool-cases, length, get_or, set, take, length-set,
  get_or-set, u32,
}
use cbuspico_lib.Frame.{CanFrame}
use cbuspico_lib.LongMessage.{LongMessage, Delivery, complete, byte}
use cbuspico_lib.LongMessage.Receive.{copy, deliver, take_byte}

abbrev pub at : List ℕ → ℕ → ℕ
at xs i = get_or xs i 0

-- What is left of a message from a byte on, as it lies in a frame: byte `j + 3` is byte `k + j` of the message.
abbrev pub Carries : List ℕ → ℕ → CanFrame → Type 0
Carries msg k f = (j : ℕ) → j < 5 → k + j < length msg → byte f (j + 3) ≡ at msg (k + j)

pub take-eq :
    (n : ℕ) (xs ys : List ℕ)
    → n ≡ length ys
    → n ≤ length xs
    → ((i : ℕ) → i < n → at xs i ≡ at ys i)
    → take n xs ≡ ys
take-eq zero xs [] e le h = refl
take-eq zero xs (y ∷ ys) e le h = absurd (omega arith)
take-eq (suc n) [] ys e le h = absurd (omega arith)
take-eq (suc n) (x ∷ xs) [] e le h = absurd (omega arith)
take-eq (suc n) (x ∷ xs) (y ∷ ys) e le h =
    ap₂ ◌∷◌ (h 0 (omega arith))
      (take-eq n xs ys (omega arith) (omega arith) (λ i lt. h (suc i) (omega arith)))

-- The stream, the sender and the sequence number that a receiver waits for.
pub record Wanted : Type 0 where
  pub stream : ℕ
  pub canid : ℕ
  pub sequence : ℕ

-- A receiver that has the first `k` bytes of a message.
pub record IsReceiving (msg : List ℕ) (w : Wanted) (k : ℕ) (m : LongMessage) : Type 0 where
  pub receiving : m.is_receiving ≡ true
  pub stream : m.receive_stream_id ≡ w.stream
  pub canid : m.sender_canid ≡ w.canid
  pub sequence : m.expected_next_receive_sequence_num ≡ w.sequence
  pub expecting : m.incoming_message_length ≡ length msg
  pub room : length msg ≤ m.receive_buffer_len
  pub buffer : length m.receive_buffer ≡ m.receive_buffer_len
  pub index : m.receive_buffer_index ≡ k
  pub received : m.incoming_bytes_received ≡ k
  pub so_far : (i : ℕ) → i < k → at m.receive_buffer i ≡ at msg i

-- The call of the handler with the whole message.
abbrev pub arrival : List ℕ → ℕ → Delivery
arrival msg stream = record { fragment = msg; stream_id = stream; status = complete }

-- The last byte has been taken and the handler called, which leaves the end of the message to `finish`.
pub record IsTaken (msg : List ℕ) (m : LongMessage) : Type 0 where
  pub expecting : m.incoming_message_length ≡ length msg
  pub received : m.incoming_bytes_received ≡ length msg
  pub index : m.receive_buffer_index ≡ 0

-- What taking the bytes up to `n` leads to: more to come, or the message.
unfoldable pub Outcome : List ℕ → Wanted → ℕ → LongMessage × List Delivery → Type 0
Outcome msg w n (m, calls) =
    ((n < length msg) × ((calls ≡ []) × IsReceiving msg w n m))
    ⊎ ((length msg ≤ n) × ((calls ≡ arrival msg w.stream ∷ []) × IsTaken msg m))

stored_so_far :
    {msg : List ℕ} {w : Wanted} (m : LongMessage) (k b i : ℕ)
    → k < length msg
    → b ≡ at msg k
    → IsReceiving msg w k m
    → i < k + 1
    → at (set m.receive_buffer m.receive_buffer_index b) i ≡ at msg i
stored_so_far {msg} m k b i lt e s lt' =
    let read =
      get_or-set m.receive_buffer m.receive_buffer_index i b 0
        (omega (arith, s.index, s.room, s.buffer)) in
    elim (Bool-cases (k == i)) [
      | inl here ↦
          let same_place : k ≡ i = (==_iff k i).0 here in
          let old : b ≡ at msg i = e ∙ ap (at msg) same_place in ground (arith, read, s.index, old)
      | inr there ↦ ground (arith, read, s.index, s.so_far i)
    ]

module _ (msg : List ℕ) (w : Wanted) (short : length msg < 2 ^ 16) where
  take_byte-IsReceiving :
      {m : LongMessage} (k b : ℕ)
      → k < length msg
      → b ≡ at msg k
      → IsReceiving msg w k m
      → IsReceiving msg w (k + 1) (take_byte m b)
  take_byte-IsReceiving {m} k b lt e s = record {
    receiving = s.receiving;
    stream = s.stream;
    canid = s.canid;
    sequence = s.sequence;
    expecting = s.expecting;
    room = s.room;
    buffer = length-set m.receive_buffer m.receive_buffer_index b ∙ s.buffer;
    index = omega (arith, s.index);
    received = omega (arith, s.received);
    so_far = λ i lt'. stored_so_far m k b i lt e s lt';
  }

  delivered :
      (m : LongMessage)
      → IsReceiving msg w (length msg) m
      → deliver m complete ≡ arrival msg w.stream
  delivered m s =
      ap₂ (λ b i. record { fragment = b; stream_id = i; status = complete })
        (take-eq m.receive_buffer_index m.receive_buffer msg s.index
          (omega (arith, s.index, s.room, s.buffer)) (λ i lt. s.so_far i (omega (arith, s.index))))
        s.stream

  pub copy_lem :
      (f : CanFrame) (k j rounds : ℕ) (m : LongMessage)
      → Carries msg k f
      → k + j < length msg
      → j + rounds ≡ 5
      → IsReceiving msg w (k + j) m
      → Outcome msg w (k + 5) (copy m f j rounds)
  unfolding copy Outcome
  copy_lem f k j zero m c lt five s =
      inl (omega arith, (refl, subst (λ n. IsReceiving msg w (k + n) m) (omega arith) s))
  copy_lem f k j (suc rounds) m c lt five s =
      let taken = take_byte-IsReceiving (k + j) (byte f (j + 3)) lt (c j (omega arith) lt) s in
      let more : leb m.receive_buffer_len m.receive_buffer_index ≡ false =
        ground (arith, s.room, s.index) in
      elim (Bool-cases (leb (length msg) (k + j + 1))) [
        | inl last ↦
            let all : k + j + 1 ≡ length msg = ground arith in
            let whole = subst (λ n. IsReceiving msg w n (take_byte m (byte f (j + 3)))) all taken in
            let done : leb m.incoming_message_length (u32 (m.incoming_bytes_received + 1)) ≡ true =
              ground (arith, s.expecting, s.received) in
            rw (more, done)
              (inr (
                omega arith,
                (
                  ap (λ x. x ∷ []) (delivered _ whole),
                  record { expecting = s.expecting; received = whole.received; index = refl },
                ),
              ))
        | inr other ↦
            let going : leb m.incoming_message_length (u32 (m.incoming_bytes_received + 1))
                ≡ false =
              ground (arith, s.expecting, s.received) in
            rw (more, going)
              (copy_lem f k (j + 1) rounds (take_byte m (byte f (j + 3))) c (ground arith)
                (omega arith)
                (subst (λ n. IsReceiving msg w n (take_byte m (byte f (j + 3)))) (omega arith)
                  taken))
      ]
