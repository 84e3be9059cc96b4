-- ===== src/LongMessage/Contexts/Exchange.antt =====
-- A sending and a receiving CBUSLongMessageEx at the two ends of the bus, while the sender's other contexts send too.
use cbuspico_lib.Common.{
  ℕ, ◌+◌, ◌*◌, ◌^◌, ◌≤◌, ◌<◌, bit_and, ◌≡◌, refl, sym, ap, ◌∙◌, subst, inl, inr, Bool, true, Option,
  none, some, List, [], ◌∷◌, ◌++◌, arith, Bool-cases, length, take, length-set, u16,
}
use cbuspico_lib.LongMessage.{Sent, Delivery}
use cbuspico_lib.LongMessage.Send.{send_message_fragment}
use cbuspico_lib.LongMessage.Transfer.{arrive}
use cbuspico_lib.LongMessage.Receive.{subscribed}
use cbuspico_lib.LongMessage.Receive.Taking.{take-eq}
use cbuspico_lib.LongMessage.Contexts.{LongMessageEx, SendContext, ReceiveContext, find}
use cbuspico_lib.LongMessage.Contexts.Crc.{crc16_bound}
use cbuspico_lib.LongMessage.Contexts.Receive as Receive
use cbuspico_lib.LongMessage.Contexts.Send.{
  sends_stream, is_free, message_crc, header_with, context_for, store, send_long_message, send_in,
  send_unless,
}
use cbuspico_lib.LongMessage.Contexts.Places.{
  find-FoundAt, find-none, get_elem?-set_self, get_elem?-set_ne, get_elem?-bound,
}
use cbuspico_lib.LongMessage.Contexts.Taking.{IsChecked}
use cbuspico_lib.LongMessage.Contexts.Fragments.{NoZero, string_copy-SameUpTo}
use cbuspico_lib.LongMessage.Contexts.Turns.{Owns, stamped, sent_by, IsPaced, sent_by-IsMixed}
use cbuspico_lib.LongMessage.Contexts.Interleave.{
  IsHeader, Nobody, wanted_first, hear, Arrives, hear-Arrives,
}

-- The checksum in the header is the one that a receiver that checks it computes.
abbrev pub crc_of : LongMessageEx → List ℕ → ℕ
crc_of s msg = message_crc s.use_crc msg (length msg)

crc_of-IsChecked :
    (s r : LongMessageEx) (msg : List ℕ)
    → length msg < 2 ^ 16
    → (s.use_crc ≡ true → r.use_crc ≡ true)
    → IsChecked r.use_crc msg (crc_of s msg) × (crc_of s msg < 2 ^ 16)
crc_of-IsChecked s r msg short both = elim (Bool-cases s.use_crc) [
  | inr off ↦ rw off (inl refl, omega arith)
  | inl on ↦
      let whole : take (u16 (length msg)) msg ≡ msg =
        take-eq (u16 (length msg)) msg msg (omega arith) (omega arith) (λ i lt. refl) in
      rw (on, whole) (inr (both on, refl), crc16_bound msg)
]

abbrev first_frame : LongMessageEx → List ℕ → ℕ → ℕ → Sent
first_frame s msg stream priority =
    send_message_fragment (header_with stream (length msg) (crc_of s msg)) priority

first_frame-IsHeader :
    (s : LongMessageEx) (msg : List ℕ) (id stream priority : ℕ)
    → length msg < 2 ^ 16
    → crc_of s msg < 2 ^ 16
    → IsHeader msg stream
        (bit_and id 0x7F)
        (crc_of s msg)
        (arrive id (first_frame s msg stream priority))
first_frame-IsHeader s msg id stream priority short small = record {
  stream_id = refl;
  sender = refl;
  number = refl;
  flags = refl;
  size = omega arith;
  checksum = omega arith;
}

-- The sender once it has accepted a message.
abbrev pub opened_for : LongMessageEx → ℕ → SendContext → List ℕ → ℕ → ℕ → LongMessageEx
opened_for s i c msg stream priority = store s i (context_for c msg (length msg) stream priority)

-- The receiver gets the header and what `process` of the sender sends at some times.
abbrev heard_from :
    ℕ → LongMessageEx → ℕ → List ℕ → Option (LongMessageEx × (List Sent × Bool)) → List Delivery
heard_from id r now times none = []
heard_from id r now times (some (s, (frames, sent))) =
    (hear r (stamped id now frames ++ sent_by id s times)).1

unfoldable pub exchange :
    ℕ → LongMessageEx → LongMessageEx → List ℕ → ℕ → ℕ → ℕ → List ℕ → List Delivery
exchange id s r msg stream priority now times =
    heard_from id r now times (send_long_message s msg (length msg) stream priority true)

exchange-opened :
    (id : ℕ) (s r : LongMessageEx) (msg : List ℕ) (stream priority now i : ℕ) (c : SendContext)
    (times : List ℕ)
    → find (sends_stream stream) s.send_context ≡ none
    → find is_free s.send_context ≡ some (i, c)
    → exchange id s r msg stream priority now times
      ≡ (hear r (
          (arrive id (first_frame s msg stream priority), now)
          ∷ sent_by id (opened_for s i c msg stream priority) times)).1
unfolding exchange send_long_message stamped
exchange-opened id s r msg stream priority now i c times new free = ap (heard_from id r now times) (
    ap (send_unless s msg (length msg) stream priority true) new
    ∙ ap (send_in s msg (length msg) stream priority true) free)

opened_for-Owns :
    (s : LongMessageEx) (msg : List ℕ) (stream priority i : ℕ) (c : SendContext)
    → find (sends_stream stream) s.send_context ≡ none
    → find is_free s.send_context ≡ some (i, c)
    → Owns stream i
        (context_for c msg (length msg) stream priority)
        (opened_for s i c msg stream priority).send_context
opened_for-Owns s msg stream priority i c new free =
    let c' = context_for c msg (length msg) stream priority in
    record {
      here =
          get_elem?-set_self s.send_context i c c' (find-FoundAt is_free s.send_context i c free).0;
      others = λ j d ne found.
          find-none (sends_stream stream) s.send_context j d new
            (sym (get_elem?-set_ne s.send_context i j c' (λ q. ne (sym q))) ∙ found);
    }

-- A sender with up to 255 contexts, one of them free and none sending on the stream yet, is given a message of 1 to
-- 1275 bytes without a zero byte. The receiver is subscribed to the stream, its buffers have room, one of its
-- contexts is free and none is in use for this stream and sender, and it uses checksums if the sender does. Then the message arrives whole, whatever
-- messages the sender's other contexts send in between: if `process` of the sender is called often enough for
-- the contexts to have their turns, and the delay has passed whenever it is this context's turn, the receiver's handler is called
-- with the message and the status that says it is complete.
pub exchange-Arrives :
    (id : ℕ) (s r : LongMessageEx) (msg : List ℕ) (stream priority now i j n : ℕ) (c : SendContext)
    (d : ReceiveContext) (times : List ℕ)
    → find (sends_stream stream) s.send_context ≡ none
    → find is_free s.send_context ≡ some (i, c)
    → s.context < length s.send_context
    → length s.send_context ≤ 255
    → 0 < length msg
    → length msg ≤ 5 * 255
    → NoZero msg
    → length msg ≤ r.base.receive_buffer_len
    → (s.use_crc ≡ true → r.use_crc ≡ true)
    → subscribed r.base.stream_ids stream ≡ true
    → find Receive.is_free r.receive_context ≡ some (j, d)
    → Nobody (wanted_first stream (bit_and id 0x7F)) r.receive_context
    → length msg ≤ 5 * (n + 1)
    → length s.send_context * (n + 1) ≤ length times
    → IsPaced i (opened_for s i c msg stream priority) times
    → Arrives msg stream (exchange id s r msg stream priority now times)
exchange-Arrives id s r msg stream priority now i j n c d times new free turn few pos numbers whole
      fits both sub open_place nobody turns enough paced =
    let count = length s.send_context in
    let s' = opened_for s i c msg stream priority in
    let c' = context_for c msg (length msg) stream priority in
    let (checked, small) = crc_of-IsChecked s r msg (omega arith) both in
    let owns = opened_for-Owns s msg stream priority i c new free in
    let valid : i < count =
      get_elem?-bound s.send_context i c (find-FoundAt is_free s.send_context i c free).0 in
    let round : count * (n + 1) ≡ count * n + count = grind arith in
    let mixed =
      sent_by-IsMixed msg id stream i count (omega arith) few valid n 0 1 c' s' times pos
        (omega arith) (omega arith) (ground (arith, round))
        (record {
          size = length-set s.send_context i c';
          turn = turn;
          owns = owns;
          sending = record {
            busy = refl;
            bytes = string_copy-SameUpTo msg whole;
            size = refl;
            stream_id = refl;
            index = refl;
            number = refl;
          };
        })
        paced in
    subst (Arrives msg stream)
      (sym (exchange-opened id s r msg stream priority now i c times new free))
      (hear-Arrives msg (crc_of s msg) stream (bit_and id 0x7F) j r d
        (arrive id (first_frame s msg stream priority)) now (sent_by id s' times) pos numbers fits
        checked (first_frame-IsHeader s msg id stream priority (omega arith) small) sub open_place
        nobody mixed)
