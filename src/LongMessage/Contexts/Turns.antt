-- ===== src/LongMessage/Contexts/Turns.antt =====
-- The contexts of a sending CBUSLongMessageEx take turns in `process`: what one of them sends, among the others.
use cbuspico_lib.Common.{
  ℕ, zero, suc, ◌+◌, ◌-◌, ◌*◌, ◌^◌, ◌≤◌, ◌<◌, bit_and, ◌≡◌, refl, sym, ap, ap₂, ◌∙◌, subst, ◌≢◌,
  inl, inr, true, false, some, List, [], ◌∷◌, ◌++◌, arith, ltb, leb, ◌==◌, if◌then◌else◌, ==_iff,
  Bool-cases, length, get_elem?, set, length-set, sub32,
}
use cbuspico_lib.LongMessage.{Sent}
use cbuspico_lib.LongMessage.Transfer.{arrive}
use cbuspico_lib.LongMessage.Receive.Taking.{Wanted}
use cbuspico_lib.LongMessage.Contexts.{LongMessageEx, SendContext}
use cbuspico_lib.LongMessage.Contexts.Send.{sends_stream, send_fragment, next_context, process}
use cbuspico_lib.LongMessage.Contexts.Places.{
  get_elem?-set_self, get_elem?-set_ne, get_elem?-set_found,
}
use cbuspico_lib.LongMessage.Contexts.Fragments.{
  IsSending, send_fragment-Sends, send_fragment-Passes,
}
use cbuspico_lib.LongMessage.Contexts.Interleave.{Timed, IsMixed, complete, next, other}

inside : {A : Type 0} (xs : List A) (i : ℕ) → i < length xs → (x : A) × (get_elem? xs i ≡ some x)
inside [] i lt = absurd (omega arith)
inside (x ∷ xs) zero lt = (x, refl)
inside (x ∷ xs) (suc i) lt = inside xs i (omega arith)

-- A context sends on a stream, and no other one does.
pub record Owns (stream i : ℕ) (c : SendContext) (cs : List SendContext) : Type 0 where
  pub here : get_elem? cs i ≡ some c
  pub others :
      (j : ℕ) (d : SendContext) → j ≢ i → get_elem? cs j ≡ some d → sends_stream stream d ≡ false

set_other-Owns :
    (stream i j : ℕ) (c d : SendContext) (cs : List SendContext)
    → j ≢ i
    → sends_stream stream d ≡ false
    → Owns stream i c cs
    → Owns stream i c (set cs j d)
set_other-Owns stream i j c d cs ne free o = record {
  here = get_elem?-set_ne cs j i d ne ∙ o.here;
  others = λ k e ne' found. elim (Bool-cases (j == k)) [
    | inl same_place ↦
        let at_place : get_elem? (set cs j d) j ≡ some e =
          ap (get_elem? (set cs j d)) ((==_iff j k).0 same_place) ∙ found in
        subst (λ x. sends_stream stream x ≡ false) (get_elem?-set_found cs j e d at_place) free
    | inr apart ↦ o.others k e ne' (sym (get_elem?-set_ne cs j k d (λ q. ground arith)) ∙ found)
  ];
}

set_own-Owns :
    (stream i : ℕ) (c d : SendContext) (cs : List SendContext)
    → Owns stream i c cs
    → Owns stream i d (set cs i d)
set_own-Owns stream i c d cs o = record {
  here = get_elem?-set_self cs i c d o.here;
  others =
      λ k e ne found. o.others k e ne (sym (get_elem?-set_ne cs i k d (λ q. ne (sym q))) ∙ found);
}

-- What one call of `process` does to the contexts, for the context whose turn it is.
process_lem :
    (m : LongMessageEx) (d : SendContext) (t : ℕ)
    → get_elem? m.send_context m.context ≡ some d
    → let r = send_fragment m.base.msg_delay d t t in
      let p = process m t t t true in
      (p.0.send_context ≡ set m.send_context m.context r.0)
      × ((p.0.context ≡ next_context (length m.send_context) m.context)
          × ((p.0.base ≡ m.base) × (p.1.1.0 ≡ r.1)))
unfolding process
process_lem m d t e = rw e (refl, (refl, (refl, refl)))

-- The calls until a context has its turn.
abbrev pub wait : ℕ → ℕ → ℕ → ℕ
wait count i x = if leb x i then i - x else i + count - x

wait-other :
    (count i x : ℕ)
    → count ≤ 255
    → i < count
    → x < count
    → x ≢ i
    → (wait count i x ≡ wait count i (next_context count x) + 1) × (next_context count x < count)
wait-other count i x few lt lt' ne = ground arith

wait-own :
    (count i : ℕ)
    → count ≤ 255
    → i < count
    → (wait count i (next_context count i) + 1 ≡ count) × (next_context count i < count)
wait-own count i few lt = ground arith

-- The frames as they arrive, with the time.
unfoldable pub stamped : ℕ → ℕ → List Sent → Timed
stamped id t [] = []
stamped id t (s ∷ frames) = (arrive id s, t) ∷ stamped id t frames

-- What calls of `process` at some times send.
unfoldable pub sent_by : ℕ → LongMessageEx → List ℕ → Timed
sent_by id m [] = []
sent_by id m (t ∷ times) =
    let p = process m t t t true in stamped id t p.1.1.0 ++ sent_by id p.0 times

-- Whenever a context has its turn, its delay has passed.
unfoldable pub IsPaced : ℕ → LongMessageEx → List ℕ → Type 0
IsPaced i m [] = Unit {0}
IsPaced i m (t ∷ times) =
    ((c : SendContext)
      → get_elem? m.send_context i ≡ some c
      → m.context ≡ i
      → m.base.msg_delay ≤ sub32 t c.last_fragment_sent)
    × IsPaced i (process m t t t true).0 times

module _ (msg : List ℕ) (id stream i count : ℕ) (short : length msg < 2 ^ 16) (few : count ≤ 255)
    (valid : i < count) where
  -- A sender of which a context has sent the first `k` bytes.
  pub record IsUnderWay (k sequence : ℕ) (c : SendContext) (m : LongMessageEx) : Type 0 where
    pub size : length m.send_context ≡ count
    pub turn : m.context < count
    pub owns : Owns stream i c m.send_context
    pub sending : IsSending msg stream k sequence c

  abbrev pub Mixed : ℕ → ℕ → Timed → Type 0
  Mixed k sequence fs = IsMixed msg stream (bit_and id 0x7F) k sequence fs

  -- Another context has its turn.
  other-IsUnderWay :
      (k sequence t : ℕ) (c d : SendContext) (m : LongMessageEx)
      → m.context ≢ i
      → get_elem? m.send_context m.context ≡ some d
      → IsUnderWay k sequence c m
      → IsUnderWay k sequence c (process m t t t true).0
        × (wait count i m.context ≡ wait count i (process m t t t true).0.context + 1)
  other-IsUnderWay k sequence t c d m ne found u =
      let p = process m t t t true in
      let (sends, (context, (base, frames))) = process_lem m d t found in
      let free = u.owns.others m.context d ne found in
      let (r, rest) = send_fragment-Passes stream id m.base.msg_delay t d free in
      let d' = (send_fragment m.base.msg_delay d t t).0 in
      let next_turn : p.0.context ≡ next_context count m.context =
        context ∙ ap (λ n. next_context n m.context) u.size in
      let (one_less, inside_count) = wait-other count i m.context few valid u.turn ne in
      (
        record {
          size =
              ap (length {A = SendContext}) sends ∙ length-set m.send_context m.context d' ∙ u.size;
          turn = subst (λ x. x < count) (sym next_turn) inside_count;
          owns =
              subst (Owns stream i c) (sym sends)
                (set_other-Owns stream i m.context c d' m.send_context ne r u.owns);
          sending = u.sending;
        },
        one_less ∙ ap (λ x. wait count i x + 1) (sym next_turn),
      )

  -- The context itself has its turn.
  own-IsUnderWay :
      (k sequence t : ℕ) (c : SendContext) (m : LongMessageEx)
      → m.context ≡ i
      → IsUnderWay k sequence c m
      → IsSending msg stream (k + 5) (sequence + 1) (send_fragment m.base.msg_delay c t t).0
      → IsUnderWay
          (k + 5)
          (sequence + 1)
          (send_fragment m.base.msg_delay c t t).0
          (process m t t t true).0
        × (wait count i (process m t t t true).0.context + 1 ≡ count)
  own-IsUnderWay k sequence t c m e u s =
      let p = process m t t t true in
      let found : get_elem? m.send_context m.context ≡ some c =
        ap (get_elem? m.send_context) e ∙ u.owns.here in
      let (sends, (context, (base, frames))) = process_lem m c t found in
      let c' = (send_fragment m.base.msg_delay c t t).0 in
      let next_turn : p.0.context ≡ next_context count i = context ∙ ap₂ next_context u.size e in
      let (all, inside_count) = wait-own count i few valid in
      (
        record {
          size =
              ap (length {A = SendContext}) sends ∙ length-set m.send_context m.context c' ∙ u.size;
          turn = subst (λ x. x < count) (sym next_turn) inside_count;
          owns =
              subst (Owns stream i c') (ap (λ x. set m.send_context x c') (sym e) ∙ sym sends)
                (set_own-Owns stream i c c' m.send_context u.owns);
          sending = s;
        },
        ap (λ x. wait count i x + 1) next_turn ∙ all,
      )

  -- Enough calls send the rest of the message, in order, among the fragments of the other contexts.
  pub sent_by-IsMixed :
      (n k sequence : ℕ) (c : SendContext) (m : LongMessageEx) (times : List ℕ)
      → k < length msg
      → length msg ≤ k + 5 * (n + 1)
      → length msg ≤ k + 5 * (256 - sequence)
      → wait count i m.context + 1 + count * n ≤ length times
      → IsUnderWay k sequence c m
      → IsPaced i m times
      → Mixed k sequence (sent_by id m times)
  unfolding sent_by IsPaced stamped
  sent_by-IsMixed n k sequence c m [] lt turns numbers enough u paced = absurd (omega arith)
  sent_by-IsMixed n k sequence c m (t ∷ times) lt turns numbers enough u (due, paced) =
      let p = process m t t t true in
      let later = sent_by id p.0 times in
      let w : Wanted = record { stream = stream; canid = bit_and id 0x7F; sequence = sequence } in
      elim (Bool-cases (m.context == i)) [
        | inr elsewhere ↦
            let ne : m.context ≢ i = λ e. ground arith in
            let (d, found) = inside m.send_context m.context (omega (arith, u.size, u.turn)) in
            let (u', less) = other-IsUnderWay k sequence t c d m ne found u in
            let frames = (process_lem m d t found).1.1.1 in
            let rest =
              sent_by-IsMixed n k sequence c p.0 times lt turns numbers (omega arith) u' paced in
            elim (send_fragment-Passes stream id m.base.msg_delay t d
              (u.owns.others m.context d ne found)).1 [
                | inl nothing ↦
                    subst (λ fs. Mixed k sequence (stamped id t fs ++ later))
                      (sym (frames ∙ nothing)) rest
                | inr (f, (one, differs)) ↦
                    subst (λ fs. Mixed k sequence (stamped id t fs ++ later)) (sym (frames ∙ one))
                      (other k sequence (arrive id f) t later (ground arith) rest)
              ]
        | inl here ↦
            let e : m.context ≡ i = (==_iff m.context i).0 here in
            let found : get_elem? m.send_context m.context ≡ some c =
              ap (get_elem? m.send_context) e ∙ u.owns.here in
            let frames = (process_lem m c t found).1.1.1 in
            let (f, (one, (is_next, (goes_on, same_stream)))) =
              send_fragment-Sends msg short id m.base.msg_delay t c u.sending lt (omega arith)
                (due c u.owns.here e) in
            subst (λ fs. Mixed k sequence (stamped id t fs ++ later)) (sym (frames ∙ one))
              (next k sequence (arrive id f) t later is_next
                (elim (Bool-cases (ltb (k + 5) (length msg))) [
                  | inr over ↦ complete (k + 5) (sequence + 1) later (ground arith)
                  | inl more ↦
                      let s' = goes_on (ground arith) in
                      let (u', round_trip) = own-IsUnderWay k sequence t c m e u s' in
                      let c' = (send_fragment m.base.msg_delay c t t).0 in
                      let again : n ≡ n - 1 + 1 = ground arith in
                      let round : count * n ≡ count * (n - 1) + count =
                        ap (λ x. count * x) again ∙ grind arith in
                      sent_by-IsMixed (n - 1) (k + 5) (sequence + 1) c' p.0 times (ground arith)
                        (omega arith) (omega arith) (omega (arith, round)) u' paced
                ]))
      ]
