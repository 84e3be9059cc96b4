-- ===== src/GridConnect/Server/Extract.antt =====
-- extractAndQueueGC of GridConnectPicoW/CBUSGridConnect.cpp against the scan of one character at a time.
use cbuspico_lib.Common.{
  ℕ, zero, suc, ◌+◌, ◌-◌, ◌^◌, ◌≤◌, ◌<◌, ◌≡◌, refl, sym, ap, ◌∙◌, subst, inl, inr, true, false,
  Option, none, some, List, [], ◌∷◌, ◌++◌, arith, ltb, leb, ◌==◌, Bool-cases, Option-cases, length,
  take, drop, replicate, length-append, length-take, length-drop, u16,
}
use cbuspico_lib.Frame.{CanFrame, empty_frame}
use cbuspico_lib.GridConnect.Codec.{GcMessage, blank, gc_max_msg, decode_gc}
use cbuspico_lib.GridConnect.Server.{
  Clock, Server, Lwip, parse_message, parsed, keep, reset, take_message, keep_partial, extract,
  extract_and_queue_gc, log, frees, copy_over, finished, not_found,
}
use cbuspico_lib.GridConnect.Server.Laws.{LwipLaws, position}
use cbuspico_lib.GridConnect.Server.Scan.{
  Scanned, scan, Fits, IsOpen, shut, scan-OpensAt, scan-StaysOpen, scan-ClosesAt, scan-none,
  IsOpen-none, IsOpen-length, IsOpen-length_all,
}
use cbuspico_lib.GridConnect.Server.Index.{index, index-drop, later, index-miss}

-- A text at the start of an empty message buffer.
abbrev pub padded : List ℕ → GcMessage
padded q = record { byte = copy_over blank.byte q; len = length q }

abbrev text : List ℕ → List ℕ → GcMessage
text byte m = record { byte = byte; len = length m }

module _ {P : Type 0} where
  abbrev pub hold : Server P → List ℕ → Server P
  hold s q = record s { buffer_recv = padded q }

  unfoldable pub accept_all : Clock → Server P → List (List ℕ) → Server P
  accept_all clock s [] = s
  accept_all clock s (m ∷ ms) = accept_all clock (parse_message s clock (padded m)) ms

  -- The messages are parsed and the open text is kept.
  abbrev pub after : Clock → Server P → Scanned → Server P
  after clock s (q, ms) = hold (accept_all clock s ms) q

  parsed-keep :
      (s : Server P) (clock : Clock) (b c : GcMessage) (o : Option CanFrame)
      → keep (parsed (keep s b) clock o) c ≡ keep (parsed s clock o) c
  parsed-keep s clock b c none = refl
  parsed-keep s clock b c (some f) = refl

cong_drop : (m n : ℕ) (xs : List ℕ) → m ≡ n → drop m xs ≡ drop n xs
cong_drop m n xs e = ap (λ k. drop k xs) e

drop-nil : (n : ℕ) → drop {A = ℕ} n [] ≡ []
drop-nil zero = refl
drop-nil (suc n) = refl

drop-drop : (a b : ℕ) (xs : List ℕ) → drop a (drop b xs) ≡ drop (b + a) xs
drop-drop a zero xs = cong_drop a (0 + a) xs (omega arith)
drop-drop a (suc b) [] = drop-nil a ∙ sym (drop-nil (suc b + a))
drop-drop a (suc b) (x ∷ xs) =
    drop-drop a b xs ∙ cong_drop (suc (b + a)) (suc b + a) (x ∷ xs) (omega arith)

drop-append_lem :
    (n : ℕ) (xs ys : List ℕ) → length xs ≤ n → drop n (xs ++ ys) ≡ drop (n - length xs) ys
drop-append_lem n [] ys h = cong_drop n (n - 0) ys (omega arith)
drop-append_lem zero (x ∷ xs) ys h = absurd (omega arith)
drop-append_lem (suc n) (x ∷ xs) ys h =
    drop-append_lem n xs ys (omega arith)
    ∙ cong_drop (n - length xs) (suc n - suc (length xs)) ys (omega arith)

take-all : (xs : List ℕ) → take (length xs) xs ≡ xs
take-all [] = refl
take-all (x ∷ xs) = ap (λ ys. x ∷ ys) (take-all xs)

drop-all : (n : ℕ) (xs : List ℕ) → length xs ≤ n → drop n xs ≡ []
drop-all zero [] h = refl
drop-all (suc n) [] h = refl
drop-all zero (x ∷ xs) h = absurd (omega arith)
drop-all (suc n) (x ∷ xs) h = drop-all n xs (omega arith)

-- A longer text covers a shorter one.
copy_over-padded :
    (q m : List ℕ) → length q ≤ length m → copy_over (padded q).byte m ≡ copy_over blank.byte m
copy_over-padded q m h =
    ap (λ ys. m ++ ys)
      (drop-append_lem (length m) q (drop (length q) blank.byte) h
        ∙ drop-drop (length m - length q) (length q) blank.byte
        ∙ cong_drop (length q + (length m - length q)) (length m) blank.byte (omega arith))

-- Within the array nothing is left of a text.
reset-padded : (m : List ℕ) → length m ≤ gc_max_msg → reset (padded m) ≡ blank
reset-padded m h =
    let size : length (copy_over blank.byte m) ≡ 28 =
      omega
        (arith, length-append m (drop (length m) blank.byte), length-drop (length m) blank.byte) in
    ap (λ (r : List ℕ). record { byte = replicate 28 0 ++ r; len = 0 })
      (drop-all 28 (copy_over blank.byte m) (omega (arith, size)))

module _ {P : Type 0} (w : Lwip P) (clock : Clock) where
  take_message-hold :
      (s : Server P) (q m : List ℕ) (p : P) (first : ℕ)
      → w.copy_partial p (length m) first ≡ m
      → 0 < length m
      → length m ≤ gc_max_msg
      → length q ≤ length m
      → take_message w clock (hold s q) p first (length m)
        ≡ hold (parse_message s clock (padded m)) []
  unfolding take_message
  take_message-hold s q m p first e h0 h1 h2 =
      let short : leb (length m) 28 ≡ true = ground arith in
      let copied : ltb 0 (length m) ≡ true = ground arith in
      rw (e, short, copied)
        (ap (λ b. keep (parse_message (keep s (text b m)) clock (text b m)) (reset (text b m)))
            (copy_over-padded q m h2)
          ∙ parsed-keep s clock (padded m) (reset (padded m)) (decode_gc (padded m) empty_frame)
          ∙ ap (keep (parse_message s clock (padded m))) (reset-padded m h1))

  keep_partial-hold :
      (s : Server P) (q m : List ℕ) (p : P) (first : ℕ)
      → u16 (w.tot_len p + 2 ^ 16 - first) ≡ length m
      → w.copy_partial p (length m) first ≡ m
      → length m ≤ gc_max_msg
      → length q ≤ length m
      → keep_partial w (hold s q) p first ≡ hold s m
  unfolding keep_partial
  keep_partial-hold s q m p first l e h1 h2 =
      let short : leb (length m) 28 ≡ true = ground arith in
      rw (l, e, short) (ap (λ b. keep s (text b m)) (copy_over-padded q m h2))

  module _ (laws : LwipLaws w) (p : P) where
    -- What is left of the buffer from `start` on.
    abbrev pub rest_at : ℕ → List ℕ
    rest_at start = drop start (laws.contents p)

    start_at :
        (start i : ℕ)
        → index b':' (rest_at start) ≡ some i
        → rest_at (start + i) ≡ b':' ∷ drop (suc i) (rest_at start)
    start_at start i h =
        sym (drop-drop i start (laws.contents p)) ∙ (index-drop b':' (rest_at start) i h).0

    last_at :
        (first : ℕ) (r : List ℕ)
        → rest_at first ≡ b':' ∷ r
        → w.memfind p b';' first ≡ position first (later (index b';' r))
    last_at first r h =
        laws.found p b';' first
        ∙ ap (λ xs. position first (index b';' xs)) h
        ∙ ap (position first) (index-miss b';' b':' r refl)

    -- The extraction of what is left from `start` on gives what the scan gives.
    abbrev pub Extracted : ℕ → Server P → List ℕ → ℕ → Type 0
    Extracted rounds s q start =
        extract w clock rounds (hold s q) start p
        ≡ some (log (after clock s (scan [] (rest_at start))) (frees p))

    -- No start is left.
    extract-none :
        (rounds : ℕ) (s : Server P) (q c : List ℕ) (start : ℕ)
        → IsOpen q
        → rest_at start ≡ q ++ c
        → index b':' (rest_at start) ≡ none
        → Extracted (suc rounds) s q start
    unfolding extract accept_all
    extract-none rounds s q c start o e h =
        let first : w.memfind p b':' start ≡ not_found =
          laws.found p b':' start ∙ ap (position start) h in
        rw first (
          ap (λ z. some (log (hold s z) (frees p))) (IsOpen-none q c (rest_at start) o e h)
          ∙ ap (λ r. some (log (after clock s r) (frees p))) (sym (scan-none (rest_at start) h)))

    -- A start without an end.
    extract-open :
        (rounds : ℕ) (s : Server P) (q c : List ℕ) (start i : ℕ)
        → length (laws.contents p) < not_found
        → start ≤ length (laws.contents p)
        → IsOpen q
        → rest_at start ≡ q ++ c
        → Fits [] (rest_at start)
        → index b':' (rest_at start) ≡ some i
        → index b';' (drop (suc i) (rest_at start)) ≡ none
        → Extracted (suc rounds) s q start
    unfolding extract accept_all
    extract-open rounds s q c start i small hs o e fits h g =
        let r = drop (suc i) (rest_at start) in
        let (opens, fits') = scan-OpensAt (rest_at start) i h in
        let (stays, short) = scan-StaysOpen b':' [] r g in
        let at = start_at start i h in
        let bound = (index-drop b':' (rest_at start) i h).1 in
        let first : w.memfind p b':' start ≡ start + i =
          laws.found p b':' start ∙ ap (position start) h in
        let last : w.memfind p b';' (start + i) ≡ not_found =
          last_at (start + i) r at ∙ ap (λ o. position (start + i) (later o)) g in
        let away : (start + i == 0xFFFF) ≡ false =
          ground (arith, length-drop start (laws.contents p)) in
        let left : u16 (w.tot_len p + 2 ^ 16 - (start + i)) ≡ length (b':' ∷ r) = omega (
          arith,
          laws.total p,
          length-drop start (laws.contents p),
          length-drop (suc i) (rest_at start),
        ) in
        let copied : w.copy_partial p (length (b':' ∷ r)) (start + i) ≡ b':' ∷ r =
          laws.copied p (length (b':' ∷ r)) (start + i)
          ∙ ap (take (length (b':' ∷ r))) at
          ∙ take-all (b':' ∷ r) in
        let kept =
          keep_partial-hold s q (b':' ∷ r) p (start + i) left copied (short (fits' fits))
            (IsOpen-length_all q c (rest_at start) i o e h) in
        rw (first, last, away)
          (ap (λ z. some (log z (frees p))) kept
            ∙ ap (λ z. some (log (after clock s z) (frees p))) (sym (opens ∙ stays)))

    -- A start and an end: what follows them is `next`.
    extract-close :
        (rounds : ℕ) (s : Server P) (q c : List ℕ) (start i j : ℕ)
        → length (laws.contents p) < not_found
        → start ≤ length (laws.contents p)
        → IsOpen q
        → rest_at start ≡ q ++ c
        → Fits [] (rest_at start)
        → index b':' (rest_at start) ≡ some i
        → index b';' (drop (suc i) (rest_at start)) ≡ some j
        → ((s' : Server P) (start' : ℕ)
            → start < start'
            → start' < length (laws.contents p)
            → Fits [] (rest_at start')
            → Extracted rounds s' [] start')
        → Extracted (suc rounds) s q start
    unfolding extract accept_all scan
    extract-close rounds s q c start i j small hs o e fits h g next =
        let r = drop (suc i) (rest_at start) in
        let m : List ℕ = b':' ∷ take (suc j) r in
        let (opens, fits') = scan-OpensAt (rest_at start) i h in
        let (closes, short) = scan-ClosesAt b':' [] r j g in
        let at = start_at start i h in
        let bound = (index-drop b':' (rest_at start) i h).1 in
        let bound' = (index-drop b';' r j g).1 in
        let sizes : start + i + suc (length r) ≡ length (laws.contents p) =
          omega (arith, length-drop start (laws.contents p), length-drop (suc i) (rest_at start)) in
        let first : w.memfind p b':' start ≡ start + i =
          laws.found p b':' start ∙ ap (position start) h in
        let last : w.memfind p b';' (start + i) ≡ start + i + suc j =
          last_at (start + i) r at ∙ ap (λ o. position (start + i) (later o)) g in
        let away : (start + i == 0xFFFF) ≡ false = ground arith in
        let away' : (start + i + suc j == 0xFFFF) ≡ false = ground arith in
        let long : length m ≡ suc (suc j) = omega (arith, length-take (suc j) r) in
        let len : u16 (start + i + suc j + 1 + 2 ^ 16 - (start + i)) ≡ length m = omega arith in
        let copied : w.copy_partial p (length m) (start + i) ≡ m =
          laws.copied p (length m) (start + i)
          ∙ ap (take (length m)) at
          ∙ ap (λ n. take n (b':' ∷ r)) long in
        let taken =
          take_message-hold s q m p (start + i) copied (omega arith) (short (fits' fits)).0
            (omega (arith, IsOpen-length q c (rest_at start) i j o e h g)) in
        let follows : rest_at (start + i + suc (suc j)) ≡ drop (suc j) r =
          sym (drop-drop (suc (suc j)) (start + i) (laws.contents p))
          ∙ ap (drop (suc (suc j))) at in
        let scanned = sym (opens ∙ closes) in
        let s' = parse_message s clock (padded m) in
        elim (Bool-cases (ltb (length m + (start + i)) (w.tot_len p))) [
          | inl more ↦
              let size = laws.total p in
              rw (first, last, away, away', len, more)
                (ap (λ z. extract w clock rounds z (u16 (length m + (start + i))) p) taken
                  ∙ ap (λ k. extract w clock rounds (hold s' []) k p)
                      {x = u16 (length m + (start + i))} {y = start + i + suc (suc j)}
                      (ground arith)
                  ∙ next s' (start + i + suc (suc j)) (omega arith) (ground arith)
                      (subst (Fits []) (sym follows) (short (fits' fits)).1)
                  ∙ ap (λ t. some (log (after clock s' (scan [] t)) (frees p))) follows
                  ∙ ap (λ z. some (log (after clock s z) (frees p))) scanned)
          | inr ends ↦
              let size = laws.total p in
              let nothing : drop (suc j) r ≡ [] = drop-all (suc j) r (ground arith) in
              rw (first, last, away, away', len, ends)
                (ap (λ z. some (log z (frees p))) taken
                  ∙ ap (λ t. some (log (after clock s' (scan [] t)) (frees p))) (sym nothing)
                  ∙ ap (λ z. some (log (after clock s z) (frees p))) scanned)
        ]

    extract-Extracted :
        (rounds : ℕ) (s : Server P) (q c : List ℕ) (start : ℕ)
        → length (laws.contents p) < not_found
        → start ≤ length (laws.contents p)
        → length (laws.contents p) < start + rounds
        → IsOpen q
        → rest_at start ≡ q ++ c
        → Fits [] (rest_at start)
        → Extracted rounds s q start
    extract-Extracted zero s q c start small hs enough o e fits = absurd (omega arith)
    extract-Extracted (suc rounds) s q c start small hs enough o e fits =
        elim (Option-cases (index b':' (rest_at start))) [
          | inl h ↦ extract-none rounds s q c start o e h
          | inr (i, h) ↦ elim (Option-cases (index b';' (drop (suc i) (rest_at start)))) [
            | inl g ↦ extract-open rounds s q c start i small hs o e fits h g
            | inr (j, g) ↦
                extract-close rounds s q c start i j small hs o e fits h g
                  (λ s' start' lt small' fits'.
                    extract-Extracted rounds s' [] (rest_at start') start' small (omega arith)
                      (omega arith) shut refl fits')
          ]
        ]

    -- A buffer with fewer than 0xFFFF characters that begins with the stored open text is scanned as a whole.
    pub extract_and_queue_gc-scan :
        (s : Server P) (q c : List ℕ)
        → length (laws.contents p) < not_found
        → IsOpen q
        → laws.contents p ≡ q ++ c
        → Fits [] (laws.contents p)
        → extract_and_queue_gc w clock (hold s q) p
          ≡ log (after clock s (scan [] (laws.contents p))) (frees p)
    unfolding extract_and_queue_gc
    extract_and_queue_gc-scan s q c small o e fits =
        let size = laws.total p in
        ap (finished (hold s q))
          (extract-Extracted (w.tot_len p + 1) s q c 0 small (omega arith) (omega arith) o e fits)
