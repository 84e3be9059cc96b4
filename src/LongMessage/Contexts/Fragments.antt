-- ===== src/LongMessage/Contexts/Fragments.antt =====
-- What one turn of a context in `process` of CBUSLongMessageEx sends.
use cbuspico_lib.Common.{
  ℕ, zero, suc, ◌+◌, ◌^◌, ◌≤◌, ◌<◌, bit_and, ◌≡◌, refl, sym, ap, ◌∙◌, subst, ◌≢◌, ◌⊎◌, inl, inr,
  true, false, ◌&&◌, List, [], ◌∷◌, arith, ltb, leb, ◌==◌, Bool-cases, length, set, get_or-set_ne,
  u8, u32, sub32,
}
use cbuspico_lib.Frame.{empty_frame}
use cbuspico_lib.LongMessage.{byte, Sent}
use cbuspico_lib.LongMessage.Send.{fill, opc_dtxc, send_message_fragment}
use cbuspico_lib.LongMessage.Send.Filling.{IsFilled, fill_lem}
use cbuspico_lib.LongMessage.Transfer.{arrive}
use cbuspico_lib.LongMessage.Receive.Taking.{at}
use cbuspico_lib.LongMessage.Contexts.{SendContext}
use cbuspico_lib.LongMessage.Contexts.Send.{
  string_copy, sends_stream, after_fragment, send_fragment,
}
use cbuspico_lib.LongMessage.Contexts.Owners.{IsNext}

-- Two buffers with the same bytes up to a length.
abbrev pub SameUpTo : ℕ → List ℕ → List ℕ → Type 0
SameUpTo n xs ys = (j : ℕ) → j < n → at xs j ≡ at ys j

-- A message without a zero byte.
abbrev pub NoZero : List ℕ → Type 0
NoZero [] = Unit {0}
NoZero (b ∷ bs) = ((b == 0) ≡ false) × NoZero bs

-- strdup copies all of it.
pub string_copy-SameUpTo : (msg : List ℕ) → NoZero msg → SameUpTo (length msg) (string_copy msg) msg
unfolding string_copy
string_copy-SameUpTo [] none_left j lt = absurd (omega arith)
string_copy-SameUpTo (b ∷ bs) (this, none_left) zero lt = rw this refl
string_copy-SameUpTo (b ∷ bs) (this, none_left) (suc j) lt =
    rw this (string_copy-SameUpTo bs none_left j (omega arith))

fill-same :
    (xs ys : List ℕ) (len : ℕ) (frame : List ℕ) (i index rounds : ℕ)
    → SameUpTo len xs ys
    → fill xs len frame i index rounds ≡ fill ys len frame i index rounds
unfolding fill
fill-same xs ys len frame i index zero same_bytes = refl
fill-same xs ys len frame i index (suc rounds) same_bytes = elim (Bool-cases (ltb index len)) [
  | inl more ↦ rw more (
      ap (λ v. fill xs len (set frame (i + 3) v) (i + 1) (u32 (index + 1)) rounds)
        (same_bytes index (ground arith))
      ∙ fill-same xs ys len (set frame (i + 3) (at ys index)) (i + 1) (u32 (index + 1)) rounds
          same_bytes)
  | inr out ↦ rw out refl
]

-- The loop leaves the first bytes of a frame.
fill-before :
    (xs : List ℕ) (len : ℕ) (frame : List ℕ) (i index rounds p : ℕ)
    → p < i + 3
    → at (fill xs len frame i index rounds).0 p ≡ at frame p
unfolding fill
fill-before xs len frame i index zero p lt = refl
fill-before xs len frame i index (suc rounds) p lt = elim (Bool-cases (ltb index len)) [
  | inl more ↦ rw more (
      fill-before xs len (set frame (i + 3) (at xs index)) (i + 1) (u32 (index + 1)) rounds p
        (omega arith)
      ∙ get_or-set_ne frame (i + 3) p (at xs index) 0 (λ e. omega arith))
  | inr out ↦ rw out refl
]

abbrev head : SendContext → List ℕ
head c = set (set empty_frame.bytes 1 c.send_stream_id) 2 (u8 c.send_sequence_num)

abbrev filled : SendContext → List ℕ × ℕ
filled c = fill c.buffer c.send_buffer_len (head c) 0 c.send_buffer_index 5

abbrev fragment_of : SendContext → Sent
fragment_of c = send_message_fragment (record empty_frame { bytes = (filled c).0 }) c.send_priority

-- A context that has sent the first `k` bytes of a message.
pub record IsSending (msg : List ℕ) (stream k sequence : ℕ) (c : SendContext) : Type 0 where
  pub busy : c.in_use ≡ true
  pub bytes : SameUpTo (length msg) c.buffer msg
  pub size : c.send_buffer_len ≡ length msg
  pub stream_id : c.send_stream_id ≡ stream
  pub index : c.send_buffer_index ≡ k
  pub number : c.send_sequence_num ≡ sequence

-- A context whose turn it is, and whose delay has passed, sends one fragment.
send_fragment-due :
    (delay t : ℕ) (c : SendContext)
    → c.in_use ≡ true
    → delay ≤ sub32 t c.last_fragment_sent
    → send_fragment delay c t t ≡ (after_fragment c (filled c).1 t, fragment_of c ∷ [])
unfolding send_fragment
send_fragment-due delay t c busy due =
    let now : (c.in_use && leb delay (sub32 t c.last_fragment_sent)) ≡ true = ground arith in
    rw now refl

after_fragment-stream :
    (c : SendContext) (index t : ℕ) → (after_fragment c index t).send_stream_id ≡ c.send_stream_id
after_fragment-stream c index t = elim (Bool-cases (leb c.send_buffer_len index)) [
  | inl last ↦ rw last refl
  | inr more ↦ rw more refl
]

after_fragment-IsSending :
    (msg : List ℕ) (stream k sequence : ℕ) (c : SendContext) (index t : ℕ)
    → IsSending msg stream k sequence c
    → index ≡ k + 5
    → k + 5 < length msg
    → sequence < 256
    → IsSending msg stream (k + 5) (sequence + 1) (after_fragment c index t)
after_fragment-IsSending msg stream k sequence c index t s e more small =
    let going : leb c.send_buffer_len index ≡ false = ground (arith, s.size) in
    rw going (record {
      busy = s.busy;
      bytes = s.bytes;
      size = s.size;
      stream_id = s.stream_id;
      index = e;
      number = omega (arith, s.number);
    })

-- The fragment is the next one of the message, and the context goes on with the rest of it, if there is any.
abbrev pub Sends : List ℕ → ℕ → ℕ → ℕ → ℕ → SendContext × List Sent → Type 0
Sends msg stream id k sequence (c, frames) =
    (f : Sent) × ((frames ≡ f ∷ [])
      × (IsNext msg (record { stream = stream; canid = bit_and id 0x7F; sequence = sequence }) k
            (arrive id f)
          × ((k + 5 < length msg → IsSending msg stream (k + 5) (sequence + 1) c)
              × (c.send_stream_id ≡ stream))))

module _ (msg : List ℕ) (short : length msg < 2 ^ 16) where
  filled-IsFilled :
      {stream k sequence : ℕ} (c : SendContext)
      → IsSending msg stream k sequence c
      → k ≤ length msg
      → IsFilled msg (head c) k 0 (filled c)
  filled-IsFilled {k = k} c s le =
      let same_fill =
        ap (λ n. fill c.buffer n (head c) 0 c.send_buffer_index 5) s.size
        ∙ ap (λ n. fill c.buffer (length msg) (head c) 0 n 5) {y = k + 0} (omega (arith, s.index))
        ∙ fill-same c.buffer msg (length msg) (head c) 0 (k + 0) 5 s.bytes in
      subst (IsFilled msg (head c) k 0) (sym same_fill)
        (fill_lem msg (head c) k 0 5 short refl refl (omega arith))

  pub send_fragment-Sends :
      {stream k sequence : ℕ} (id delay t : ℕ) (c : SendContext)
      → IsSending msg stream k sequence c
      → k < length msg
      → sequence < 256
      → delay ≤ sub32 t c.last_fragment_sent
      → Sends msg stream id k sequence (send_fragment delay c t t)
  send_fragment-Sends {stream} {k} {sequence} id delay t c s lt small due =
      let full = filled-IsFilled c s (omega arith) in
      let skip = λ (p : ℕ) (ne : 0 ≢ p). get_or-set_ne (filled c).0 0 p opc_dtxc 0 ne in
      subst (Sends msg stream id k sequence) (sym (send_fragment-due delay t c s.busy due)) (
        fragment_of c,
        (
          refl,
          (
            record {
              stream = skip 1 (λ e. omega arith) ∙ full.before 1 (omega arith) ∙ s.stream_id;
              canid = refl;
              number =
                  skip 2 (λ e. omega arith)
                  ∙ full.before 2 (omega arith)
                  ∙ ap u8 s.number
                  ∙ (omega arith);
              carries =
                  λ j lt5 lt'. skip (j + 3) (λ e. omega arith) ∙ full.after j (omega arith) lt5 lt';
            },
            (
              λ more.
                  after_fragment-IsSending msg stream k sequence c (filled c).1 t s
                    (omega (arith, full.index)) more small,
              after_fragment-stream c (filled c).1 t ∙ s.stream_id,
            ),
          ),
        ),
      )

-- A context that does not send on a stream: its fragment is of another, and it will not send on the stream later.
abbrev pub Passes : ℕ → ℕ → SendContext × List Sent → Type 0
Passes stream id (c, frames) =
    (sends_stream stream c ≡ false)
    × ((frames ≡ [])
        ⊎ ((f : Sent) × ((frames ≡ f ∷ []) × ((byte (arrive id f) 1 == stream) ≡ false))))

after_fragment-Passes :
    (stream : ℕ) (c : SendContext) (index t : ℕ)
    → (c.send_stream_id == stream) ≡ false
    → sends_stream stream (after_fragment c index t) ≡ false
after_fragment-Passes stream c index t differs = elim (Bool-cases (leb c.send_buffer_len index)) [
  | inl last ↦ rw last refl
  | inr more ↦ rw more (ground arith)
]

pub send_fragment-Passes :
    (stream id delay t : ℕ) (c : SendContext)
    → sends_stream stream c ≡ false
    → Passes stream id (send_fragment delay c t t)
unfolding send_fragment
send_fragment-Passes stream id delay t c free =
    elim (Bool-cases (c.in_use && leb delay (sub32 t c.last_fragment_sent))) [
      | inr waiting ↦ rw waiting (free, inl refl)
      | inl now ↦
          let differs : (c.send_stream_id == stream) ≡ false = ground arith in
          let same_id : byte (fragment_of c).frame 1 ≡ c.send_stream_id =
            get_or-set_ne (filled c).0 0 1 opc_dtxc 0 (λ e. omega arith)
            ∙ fill-before c.buffer c.send_buffer_len (head c) 0 c.send_buffer_index 5 1
                (omega arith) in
          rw now (
            after_fragment-Passes stream c (filled c).1 t differs,
            inr (fragment_of c, (refl, ap (λ x. x == stream) same_id ∙ differs)),
          )
    ]
