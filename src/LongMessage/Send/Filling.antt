-- ===== src/LongMessage/Send/Filling.antt =====
-- The frame that CBUSLongMessage sends next holds the next five bytes of the message.
use cbuspico_lib.Common.{
  ℕ, zero, suc, ◌+◌, ◌-◌, ◌^◌, ◌≤◌, ◌<◌, min, ◌≡◌, refl, sym, ap, ◌∙◌, subst, ◌≢◌, inl, inr, Bool,
  true, false, ◌&&◌, List, [], ◌∷◌, arith, ltb, leb, ◌==◌, ==_iff, Bool-cases, length, set,
  length-set, get_or-set_self, get_or-set_ne, u8, u32, sub32,
}
use cbuspico_lib.Frame.{empty_frame}
use cbuspico_lib.LongMessage.{LongMessage, byte, Sent}
use cbuspico_lib.LongMessage.Send.{fill, process_send, opc_dtxc, send_message_fragment}
use cbuspico_lib.LongMessage.Receive.Taking.{at, Carries}

-- A frame filled with the bytes of a message up to a position, by the loop from the round `j` on.
pub record IsFilled (msg start : List ℕ) (k j : ℕ) (out : List ℕ × ℕ) : Type 0 where
  pub before : (p : ℕ) → p < j + 3 → at out.0 p ≡ at start p
  pub after : (i : ℕ) → j ≤ i → i < 5 → k + i < length msg → at out.0 (i + 3) ≡ at msg (k + i)
  pub size : length out.0 ≡ 8
  pub index : out.1 ≡ min (k + 5) (length msg)

pub fill_lem :
    (msg start : List ℕ) (k j rounds : ℕ)
    → length msg < 2 ^ 16
    → length start ≡ 8
    → j + rounds ≡ 5
    → k + j ≤ length msg
    → IsFilled msg start k j (fill msg (length msg) start j (k + j) rounds)
unfolding fill
fill_lem msg start k j zero short len five le = record {
  before = λ p lt. refl;
  after = λ i ge lt lt'. absurd (omega arith);
  size = len;
  index = omega arith;
}
fill_lem msg start k j (suc rounds) short len five le =
    elim (Bool-cases (ltb (k + j) (length msg))) [
      | inr out ↦ rw out (record {
        before = λ p lt. refl;
        after = λ i ge lt lt'. absurd (ground arith);
        size = len;
        index = ground arith;
      })
      | inl more ↦
          let put = set start (j + 3) (at msg (k + j)) in
          let next : IsFilled msg put k (j + 1)
              (fill msg (length msg) put (j + 1) (u32 (k + j + 1)) rounds) =
            subst (λ n. IsFilled msg put k (j + 1) (fill msg (length msg) put (j + 1) n rounds))
              (omega arith)
              (fill_lem msg put k (j + 1) rounds short
                (length-set start (j + 3) (at msg (k + j)) ∙ len) (omega arith) (ground arith)) in
          rw more (record {
            before = λ p lt.
                next.before p (omega arith)
                ∙ get_or-set_ne start (j + 3) p (at msg (k + j)) 0 (λ e. omega arith);
            after = λ i ge lt lt'. elim (Bool-cases (j == i)) [
              | inl here ↦
                  let same_place : j ≡ i = (==_iff j i).0 here in
                  next.before (i + 3) (omega arith)
                  ∙ ap (λ x. at put (x + 3)) (sym same_place)
                  ∙ get_or-set_self start (j + 3) (at msg (k + j)) 0 (omega (arith, len))
                  ∙ ap (λ x. at msg (k + x)) same_place
              | inr there ↦ next.after i (ground arith) lt lt'
            ];
            size = next.size;
            index = next.index;
          })
    ]

-- A sender that has sent the first `k` bytes of a message.
pub record IsSending (msg : List ℕ) (stream k sequence : ℕ) (m : LongMessage) : Type 0 where
  pub buffer : m.send_buffer ≡ msg
  pub size : m.send_buffer_len ≡ length msg
  pub stream_id : m.send_stream_id ≡ stream
  pub index : m.send_buffer_index ≡ k
  pub number : m.send_sequence_num ≡ sequence

-- The bytes of the next frame before the message is filled in, and the loop on them.
abbrev pub head : LongMessage → List ℕ
head m = set (set empty_frame.bytes 1 m.send_stream_id) 2 (u8 m.send_sequence_num)

abbrev pub filled : LongMessage → List ℕ × ℕ
filled m = fill m.send_buffer m.send_buffer_len (head m) 0 m.send_buffer_index 5

abbrev pub next_fragment : LongMessage → Sent
next_fragment m =
    send_message_fragment (record empty_frame { bytes = (filled m).0 }) m.send_priority

abbrev pub advanced : LongMessage → ℕ → LongMessage
advanced m stamp_time = record m {
  last_fragment_sent = stamp_time;
  send_buffer_index = (filled m).1;
  send_sequence_num = u32 (m.send_sequence_num + 1);
}

pub process_send-due :
    (m : LongMessage) (t1 t2 : ℕ) (accepted : Bool)
    → ltb m.send_buffer_index m.send_buffer_len ≡ true
    → m.msg_delay ≤ sub32 t1 m.last_fragment_sent
    → process_send m t1 t2 accepted ≡ (advanced m t2, (next_fragment m ∷ [], accepted))
unfolding process_send
process_send-due m t1 t2 accepted more due =
    let now : (ltb m.send_buffer_index m.send_buffer_len
          && leb m.msg_delay (sub32 t1 m.last_fragment_sent))
        ≡ true =
      ground arith in
    rw now refl

pub process_send-done :
    (m : LongMessage) (t1 t2 : ℕ) (accepted : Bool)
    → ltb m.send_buffer_index m.send_buffer_len ≡ false
    → process_send m t1 t2 accepted ≡ (m, ([], true))
unfolding process_send
process_send-done m t1 t2 accepted none_left =
    let idle : (ltb m.send_buffer_index m.send_buffer_len
          && leb m.msg_delay (sub32 t1 m.last_fragment_sent))
        ≡ false =
      ground arith in
    rw idle refl

module _ (msg : List ℕ) (short : length msg < 2 ^ 16) where
  filled-IsFilled :
      {stream k sequence : ℕ} (m : LongMessage)
      → IsSending msg stream k sequence m
      → k ≤ length msg
      → IsFilled msg (head m) k 0 (filled m)
  filled-IsFilled {k = k} m s le =
      rw (s.buffer, s.size, s.index)
        (subst (λ n. IsFilled msg (head m) k 0 (fill msg (length msg) (head m) 0 n 5)) (omega arith)
          (fill_lem msg (head m) k 0 5 short refl refl (omega arith)))

  -- The next frame carries the next bytes, and the stream and sequence number of the sender.
  pub next_fragment_lem :
      {stream k sequence : ℕ} (m : LongMessage)
      → IsSending msg stream k sequence m
      → k < length msg
      → Carries msg k (next_fragment m).frame
        × ((byte (next_fragment m).frame 1 ≡ stream)
            × (byte (next_fragment m).frame 2 ≡ u8 sequence))
  next_fragment_lem m s lt =
      let full = filled-IsFilled m s (omega arith) in
      let skip = λ (p : ℕ) (ne : 0 ≢ p). get_or-set_ne (filled m).0 0 p opc_dtxc 0 ne in
      (
        λ j lt5 lt'. skip (j + 3) (λ e. omega arith) ∙ full.after j (omega arith) lt5 lt',
        (
          skip 1 (λ e. omega arith) ∙ full.before 1 (omega arith) ∙ s.stream_id,
          skip 2 (λ e. omega arith) ∙ full.before 2 (omega arith) ∙ ap u8 s.number,
        ),
      )

  pub advanced-IsSending :
      {stream k sequence : ℕ} (m : LongMessage) (t : ℕ)
      → IsSending msg stream k sequence m
      → k < length msg
      → sequence < 2 ^ 32 - 1
      → IsSending msg stream (min (k + 5) (length msg)) (sequence + 1) (advanced m t)
  advanced-IsSending m t s lt small =
      let full = filled-IsFilled m s (omega arith) in
      record {
        buffer = s.buffer;
        size = s.size;
        stream_id = s.stream_id;
        index = full.index;
        number = omega (arith, s.number);
      }
