-- ===== src/GridConnect/Server/Spoken.antt =====
-- The messages of encoded frames, one after the other, as a server of GridConnectPicoW/CBUSGridConnect.cpp reads them.
use cbuspico_lib.Common.{
  ℕ, zero, suc, ◌+◌, ◌-◌, ◌≤◌, ◌<◌, ◌≡◌, refl, sym, ap, ap₂, ◌∙◌, subst, Bool, true, false, List,
  [], ◌∷◌, ◌++◌, append_assoc, arith, ◌==◌, length, get_or, take, drop, replicate, length-append,
  length-take,
}
use cbuspico_lib.Frame.{CanFrame, empty_frame}
use cbuspico_lib.GridConnect.Codec.{GcMessage, gc_max_msg, encode_gc, decode_gc, not_encodable}
use cbuspico_lib.GridConnect.Codec.RoundTrip.{IsFrame, used_part, decode_gc-encode_gc}
use cbuspico_lib.GridConnect.Codec.Text.{IsText, encode_gc-IsText}
use cbuspico_lib.GridConnect.Server.Scan.{scan, Fits, scan-append, Fits-join}
use cbuspico_lib.GridConnect.Server.Extract.{padded}
use cbuspico_lib.GridConnect.Server.Frames.{frames, frame_in}

-- The characters in use.
abbrev pub text : GcMessage → List ℕ
text m = take m.len m.byte

zero_tail :
    (b : List ℕ) (n : ℕ)
    → ((j : ℕ) → n ≤ j → get_or b j 0 ≡ 0)
    → take n b ++ drop n (replicate (length b) 0) ≡ b
zero_tail [] zero h = refl
zero_tail [] (suc n) h = refl
zero_tail (x ∷ b) zero h =
    ap₂ (λ y ys. y ∷ ys) (sym (h 0 (omega arith)))
      (zero_tail b zero (λ j le. h (suc j) (omega arith)))
zero_tail (x ∷ b) (suc n) h = ap (λ ys. x ∷ ys) (zero_tail b n (λ j le. h (suc j) (omega arith)))

padded-text : (m : GcMessage) → IsText m → padded (text m) ≡ m
padded-text m v =
    let size : length (text m) ≡ m.len = omega (arith, length-take m.len m.byte, v.room, v.size) in
    ap₂ (λ n k. record { byte = text m ++ drop n (replicate k 0); len = n }) size (sym v.room)
    ∙ ap (λ b. record { byte = b; len = m.len }) (zero_tail m.byte m.len v.behind)

-- An open text up to its only end is a message.
text-closes :
    (c : ℕ) (q bs : List ℕ) (k : ℕ)
    → ((j : ℕ) → j < k → (get_or bs j 0 == b';') ≡ false)
    → get_or bs k 0 ≡ b';'
    → k < length bs
    → suc (length q) + suc k ≤ gc_max_msg
    → (scan (c ∷ q) (take (suc k) bs) ≡ ([], ((c ∷ q) ++ take (suc k) bs) ∷ []))
      × Fits (c ∷ q) (take (suc k) bs)
unfolding scan Fits
text-closes c q [] k middle last inside short = absurd (omega arith)
text-closes c q (x ∷ bs) zero middle last inside short =
    let ends : (x == b';') ≡ true = ground arith in rw ends (refl, (omega arith, omega arith))
text-closes c q (x ∷ bs) (suc k) middle last inside short =
    let goes_on : (x == b';') ≡ false = middle 0 (omega arith) in
    let (s, f) =
      text-closes c (q ++ x ∷ []) bs k (λ j lt. middle (suc j) (omega arith)) last (omega arith)
        (omega (arith, length-append q (x ∷ []))) in
    rw goes_on (
      s ∙ ap (λ t. ([], (c ∷ t) ∷ [])) (append_assoc q (x ∷ []) (take (suc k) bs)),
      (omega arith, f),
    )

-- The text of one message is read as that message.
abbrev Reads : GcMessage → Type 0
Reads m = (scan [] (text m) ≡ ([], text m ∷ [])) × Fits [] (text m)

byte_text :
    (byte : List ℕ) (n : ℕ)
    → IsText (record { byte = byte; len = n })
    → Reads (record { byte = byte; len = n })
unfolding scan Fits
byte_text [] n v = absurd (omega (arith, v.room))
byte_text (x ∷ byte) zero v = absurd (omega (arith, v.size))
byte_text (x ∷ byte) (suc zero) v = absurd (omega (arith, v.size))
byte_text (x ∷ byte) (suc (suc k)) v =
    let at : suc k ≡ suc (suc k) - 1 = omega arith in
    let last = ap (λ i. get_or (x ∷ byte) i 0) at ∙ v.end_char in
    let (s, f) =
      text-closes b':' [] byte k (λ j lt. v.middle (suc j) (omega arith) (omega arith)) last
        (omega (arith, v.room, v.size)) (omega (arith, v.size)) in
    subst (λ y. Reads (record { byte = y ∷ byte; len = suc (suc k) })) (sym v.start)
      (s, (omega arith, f))

-- The messages of frames, each with the flag whether more follow.
unfoldable pub spoken : List (CanFrame × Bool) → List ℕ
spoken [] = []
spoken ((f, more) ∷ fs) = text (encode_gc f).1 ++ spoken fs

unfoldable pub messages : List (CanFrame × Bool) → List (List ℕ)
messages [] = []
messages ((f, more) ∷ fs) = text (encode_gc f).1 ∷ messages fs

-- Frames that encodeGC accepts.
unfoldable pub AllEncodable : List (CanFrame × Bool) → Type 0
AllEncodable [] = Unit {0}
AllEncodable ((f, more) ∷ fs) = IsFrame f × (not_encodable f ≡ false) × AllEncodable fs

-- The frames with their unused data bytes zero.
unfoldable pub received : List (CanFrame × Bool) → List CanFrame
received [] = []
received ((f, more) ∷ fs) = used_part f ∷ received fs

pub spoken-scan :
    (fs : List (CanFrame × Bool))
    → AllEncodable fs
    → (scan [] (spoken fs) ≡ ([], messages fs)) × Fits [] (spoken fs)
unfolding spoken messages AllEncodable scan Fits
spoken-scan [] all = (refl, omega arith)
spoken-scan ((f, more) ∷ fs) (frame, accepted, all) =
    let m = (encode_gc f).1 in
    let (s, fits) = byte_text m.byte m.len (encode_gc-IsText f accepted) in
    let (s', fits') = spoken-scan fs all in
    (
      scan-append [] (text m) (spoken fs)
          ∙ ap (λ r. ((scan r.0 (spoken fs)).0, r.1 ++ (scan r.0 (spoken fs)).1)) s
          ∙ ap (λ r. (r.0, text m ∷ r.1)) s',
      Fits-join [] (text m) (spoken fs) fits (subst (λ r. Fits r.0 (spoken fs)) (sym s) fits'),
    )

pub frames-messages :
    (fs : List (CanFrame × Bool)) → AllEncodable fs → frames (messages fs) ≡ received fs
unfolding messages AllEncodable frames received
frames-messages [] all = refl
frames-messages ((f, more) ∷ fs) (frame, accepted, all) =
    let m = (encode_gc f).1 in
    let (done, short, back) = decode_gc-encode_gc f frame accepted in
    ap₂ (λ o rest. frame_in o ++ rest)
      (ap (λ z. decode_gc z empty_frame) (padded-text m (encode_gc-IsText f accepted)) ∙ back)
      (frames-messages fs all)
