-- ===== src/LongMessage/Contexts/Interleave.antt =====
-- Messages that come in at the same time do not disturb each other: processReceivedMessageFragment of CBUSLongMessageEx.
use cbuspico_lib.Common.{
  ℕ, zero, suc, ◌+◌, ◌-◌, ◌*◌, ◌^◌, ◌≤◌, ◌<◌, bit_and, ◌≡◌, refl, sym, ap, ap₂, ◌∙◌, subst, inl,
  inr, Bool, true, false, ◌&&◌, some, List, [], ◌∷◌, ◌++◌, append_assoc, arith, ◌==◌, ==_iff,
  some_eq, length, get_elem?, set, length-replicate,
}
use cbuspico_lib.Frame.{CanFrame}
use cbuspico_lib.LongMessage.{Delivery, byte}
use cbuspico_lib.LongMessage.Receive.{subscribed}
use cbuspico_lib.LongMessage.Receive.Taking.{arrival, Wanted}
use cbuspico_lib.LongMessage.Contexts.{LongMessageEx, ReceiveContext, find}
use cbuspico_lib.LongMessage.Contexts.Receive.{
  opened, is_free, handle, process_received_message_fragment,
}
use cbuspico_lib.LongMessage.Contexts.Taking.{IsReceiving, IsChecked}
use cbuspico_lib.LongMessage.Contexts.Places.{find-FoundAt, get_elem?-set_self, get_elem?-set_ne}
use cbuspico_lib.LongMessage.Contexts.Owners.{
  from_sender, ours, Hosts, other-Hosts, IsNext, next-Stepped,
}

-- The header packet of a message, with a checksum or 0.
pub record IsHeader (msg : List ℕ) (stream canid crc : ℕ) (f : CanFrame) : Type 0 where
  pub stream_id : byte f 1 ≡ stream
  pub sender : bit_and f.id 0x7F ≡ canid
  pub number : byte f 2 ≡ 0
  pub flags : byte f 7 ≡ 0
  pub size : byte f 3 * 2 ^ 8 + byte f 4 ≡ length msg
  pub checksum : byte f 5 * 2 ^ 8 + byte f 6 ≡ crc

abbrev pub wanted_first : ℕ → ℕ → Wanted
wanted_first stream canid = record { stream = stream; canid = canid; sequence = 1 }

-- No context is in use for the stream and sender.
abbrev pub Nobody : Wanted → List ReceiveContext → Type 0
Nobody w [] = Unit {0}
Nobody w (c ∷ cs) = (ours w c ≡ false) × Nobody w cs

Nobody_lem :
    (w : Wanted) (cs : List ReceiveContext) (j : ℕ) (e : ReceiveContext)
    → Nobody w cs
    → get_elem? cs j ≡ some e
    → ours w e ≡ false
Nobody_lem w [] j e nobody found = absurd (ground arith)
Nobody_lem w (c ∷ cs) zero e (free, rest) found =
    subst (λ x. ours w x ≡ false) (some_eq c e found) free
Nobody_lem w (c ∷ cs) (suc j) e (free, rest) found = Nobody_lem w cs j e rest found

-- A header packet takes a free context for a stream and sender that have none.
header-Hosts :
    (use_crc : Bool) (len : ℕ) (ids msg : List ℕ) (stream canid crc i : ℕ) (d : ReceiveContext)
    (cs : List ReceiveContext) (f : CanFrame) (now : ℕ)
    → IsHeader msg stream canid crc f
    → subscribed ids stream ≡ true
    → find is_free cs ≡ some (i, d)
    → Nobody (wanted_first stream canid) cs
    → (handle use_crc len ids cs f now ≡ (set cs i (opened d len f now), []))
      × (Hosts (wanted_first stream canid) i (opened d len f now) (set cs i (opened d len f now))
          × IsReceiving msg (wanted_first stream canid) len crc 0 (opened d len f now))
unfolding handle
header-Hosts use_crc len ids msg stream canid crc i d cs f now header sub found nobody =
    let first : (byte f 2 == 0) ≡ true = (==_iff (byte f 2) 0).1 header.number in
    let opens : (byte f 7 == 0 && subscribed ids (byte f 1)) ≡ true =
      ap₂ (λ x s. x == 0 && subscribed ids s) header.flags header.stream_id ∙ sub in
    let (at_i, free) = find-FoundAt is_free cs i d found in
    let c = opened d len f now in
    (
      rw (first, opens, found) refl,
      (
        record {
          here = get_elem?-set_self cs i d c at_i;
          mine = ground (arith, header.stream_id, header.sender);
          others = λ j e ne e'.
              Nobody_lem (wanted_first stream canid) cs j e nobody
                (sym (get_elem?-set_ne cs i j c (λ q. ne (sym q))) ∙ e');
        },
        record {
          busy = refl;
          stream = header.stream_id;
          canid = header.sender;
          sequence = refl;
          expecting = header.size;
          checksum = header.checksum;
          room = length-replicate len 0;
          index = refl;
          received = refl;
          so_far = λ k lt. absurd (omega arith);
        },
      ),
    )

-- The frames with the times at which they come in.
abbrev pub Timed : Type 0
Timed = List (CanFrame × ℕ)

-- The fragments of a message in order, from byte `k` on, with any frames of other streams or senders before, between and
-- behind them, and anything once the message is complete.
pub data IsMixed (msg : List ℕ) (stream canid : ℕ) : ℕ → ℕ → Timed → Type 0 where
  complete : (k sequence : ℕ) (fs : Timed) → length msg ≤ k → IsMixed msg stream canid k sequence fs
  next :
      (k sequence : ℕ) (f : CanFrame) (now : ℕ) (fs : Timed)
      → IsNext msg (record { stream = stream; canid = canid; sequence = sequence }) k f
      → IsMixed msg stream canid (k + 5) (sequence + 1) fs
      → IsMixed msg stream canid k sequence ((f, now) ∷ fs)
  other :
      (k sequence : ℕ) (f : CanFrame) (now : ℕ) (fs : Timed)
      → from_sender (record { stream = stream; canid = canid; sequence = sequence }) f ≡ false
      → IsMixed msg stream canid k sequence fs
      → IsMixed msg stream canid k sequence ((f, now) ∷ fs)

-- The frames are handed to the object one after the other.
unfoldable pub hear : LongMessageEx → Timed → LongMessageEx × List Delivery
hear m [] = (m, [])
hear m ((f, now) ∷ fs) =
    let (m', calls) = process_received_message_fragment m f now in
    let (m'', later) = hear m' fs in (m'', calls ++ later)

-- The handler is called with the message at some time.
abbrev pub Arrives : List ℕ → ℕ → List Delivery → Type 0
Arrives msg stream calls =
    (before : List Delivery) × ((later : List Delivery) × (calls
        ≡ before ++ arrival msg stream ∷ later))

later-Arrives :
    (msg : List ℕ) (stream : ℕ) (calls rest : List Delivery)
    → Arrives msg stream rest
    → Arrives msg stream (calls ++ rest)
later-Arrives msg stream calls rest (before, (later, e)) = (
  calls ++ before,
  (later, ap (λ l. calls ++ l) e ∙ sym (append_assoc calls before (arrival msg stream ∷ later))),
)

hear-Arrives_from :
    (msg : List ℕ) (crc stream canid k sequence i : ℕ) (m : LongMessageEx) (c : ReceiveContext)
    (fs : Timed)
    → length msg < 2 ^ 16
    → length msg ≤ m.base.receive_buffer_len
    → IsChecked m.use_crc msg crc
    → k < length msg
    → 0 < sequence
    → length msg ≤ k + 5 * (256 - sequence)
    → Hosts (record { stream = stream; canid = canid; sequence = sequence }) i c m.receive_context
    → IsReceiving msg
        (record { stream = stream; canid = canid; sequence = sequence })
        m.base.receive_buffer_len
        crc
        k
        c
    → IsMixed msg stream canid k sequence fs
    → Arrives msg stream (hear m fs).1
unfolding hear process_received_message_fragment
hear-Arrives_from msg crc stream canid k sequence i m c fs short fits checked lt pos few h r
      (complete _ _ _ over) =
    absurd (omega arith)
hear-Arrives_from msg crc stream canid k sequence i m c _ short fits checked lt pos few h r
      (next _ _ f now fs is_next mixed) =
    let w : Wanted = record { stream = stream; canid = canid; sequence = sequence } in
    let r0 = handle m.use_crc m.base.receive_buffer_len m.base.stream_ids m.receive_context f now in
    let m' = record m { receive_context = r0.0 } in
    elim (next-Stepped m.use_crc msg m.base.receive_buffer_len crc short fits checked
      m.base.stream_ids w i k c m.receive_context f now is_next lt pos (omega arith) h r) [
        | inr all ↦ ([], ((hear m' fs).1, ap (λ l. l ++ (hear m' fs).1) all))
        | inl (c', (more, (nothing, (h', r')))) ↦ later-Arrives msg stream r0.1 (hear m' fs).1 (
            hear-Arrives_from msg crc stream canid (k + 5) (sequence + 1) i m' c' fs short fits
              checked more (omega arith) (omega arith) h' r' mixed)
      ]
hear-Arrives_from msg crc stream canid k sequence i m c _ short fits checked lt pos few h r
      (other _ _ f now fs differs mixed) =
    let w : Wanted = record { stream = stream; canid = canid; sequence = sequence } in
    let r0 = handle m.use_crc m.base.receive_buffer_len m.base.stream_ids m.receive_context f now in
    let m' = record m { receive_context = r0.0 } in
    let h' =
      other-Hosts m.use_crc m.base.receive_buffer_len m.base.stream_ids w i c m.receive_context f
        now differs h in
    later-Arrives msg stream r0.1 (hear m' fs).1 (
      hear-Arrives_from msg crc stream canid k sequence i m' c fs short fits checked lt pos few h' r
        mixed)

-- A header packet of a message, on a stream that is subscribed to, finds a free context, and no context is in use for its
-- stream and sender. Then the message arrives: whatever frames of other streams or senders come between its
-- fragments, headers and fragments of other messages among them, the handler is called with the whole message and the
-- status that says it is complete. The message is not empty, fits into the buffer and into 255 fragments, and its
-- header has no checksum or the receiver uses checksums and it is the right one.
pub hear-Arrives :
    (msg : List ℕ) (crc stream canid i : ℕ) (m : LongMessageEx) (d : ReceiveContext) (f : CanFrame)
    (now : ℕ) (fs : Timed)
    → 0 < length msg
    → length msg ≤ 5 * 255
    → length msg ≤ m.base.receive_buffer_len
    → IsChecked m.use_crc msg crc
    → IsHeader msg stream canid crc f
    → subscribed m.base.stream_ids stream ≡ true
    → find is_free m.receive_context ≡ some (i, d)
    → Nobody (wanted_first stream canid) m.receive_context
    → IsMixed msg stream canid 0 1 fs
    → Arrives msg stream (hear m ((f, now) ∷ fs)).1
unfolding hear process_received_message_fragment
hear-Arrives msg crc stream canid i m d f now fs pos few fits checked header sub found nobody
      mixed =
    let len = m.base.receive_buffer_len in
    let ids = m.base.stream_ids in
    let c = opened d len f now in
    let (e, (h, r)) =
      header-Hosts m.use_crc len ids msg stream canid crc i d m.receive_context f now header sub
        found nobody in
    let m' = record m { receive_context = set m.receive_context i c } in
    subst (λ r0. Arrives msg stream (r0.1 ++ (hear (record m { receive_context = r0.0 }) fs).1))
      (sym e)
      (hear-Arrives_from msg crc stream canid 0 1 i m' c fs (omega arith) fits checked pos
        (omega arith) (omega arith) h r mixed)
