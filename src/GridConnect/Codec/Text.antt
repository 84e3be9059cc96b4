-- ===== src/GridConnect/Codec/Text.antt =====
-- The text that encodeGC of GridConnectPicoW/CBUSGridConnect.cpp makes of a frame.
use cbuspico_lib.Common.{
  ℕ, zero, suc, ◌+◌, ◌-◌, ◌*◌, ◌/◌, ◌%◌, ◌≤◌, ◌<◌, ◌≡◌, refl, sym, ap, ◌∙◌, subst, inl, inr, Bool,
  true, false, not, List, [], ◌∷◌, ◌++◌, arith, ltb, ◌==◌, Bool-cases, passes_below,
  passes_below_lem, length, get_or, take, replicate,
}
use cbuspico_lib.Frame.{CanFrame}
use cbuspico_lib.GridConnect.Hex.{upper, lower, hex_char_ok, hex_char_ok-upper, hex_char_ok-lower}
use cbuspico_lib.GridConnect.Codec.{
  GcMessage, Cursor, blank, gc_max_msg, extended_header, standard_header, finish, encode_gc,
  not_encodable,
}
use cbuspico_lib.GridConnect.Codec.Encode.{IsFinished, finish-IsFinished}
use cbuspico_lib.GridConnect.Codec.RoundTrip.{header_of, encode_gc-eq}

-- One start, at the beginning, and one end, at the end; behind it there are zeros.
pub record IsText (m : GcMessage) : Type 0 where
  pub room : length m.byte ≡ gc_max_msg
  pub size : (2 ≤ m.len) × (m.len ≤ gc_max_msg)
  pub start : get_or m.byte 0 0 ≡ b':'
  pub middle : (j : ℕ) → 0 < j → j + 1 < m.len → (get_or m.byte j 0 == b';') ≡ false
  pub end_char : get_or m.byte (m.len - 1) 0 ≡ b';'
  pub behind : (j : ℕ) → m.len ≤ j → get_or m.byte j 0 ≡ 0

hex_no_end : (c : ℕ) → hex_char_ok c ≡ true → (c == b';') ≡ false
unfolding hex_char_ok
hex_no_end c h = ground arith

upper_no_end : (u : ℕ) → (upper u == b';') ≡ false
upper_no_end u = hex_no_end (upper u) (hex_char_ok-upper u)

lower_no_end : (u : ℕ) → (lower u == b';') ≡ false
lower_no_end u = hex_no_end (lower u) (hex_char_ok-lower u)

-- A header of which this is known as well gives such a text.
pub record IsHead (h : Cursor) : Type 0 where
  pub room : length h.byte ≡ gc_max_msg
  pub size : (1 ≤ h.offset) × (h.offset ≤ 10)
  pub start : get_or h.byte 0 0 ≡ b':'
  pub middle : (j : ℕ) → 0 < j → j < h.offset → (get_or h.byte j 0 == b';') ≡ false
  pub behind : (j : ℕ) → h.offset ≤ j → get_or h.byte j 0 ≡ 0

abbrev no_end : List ℕ → ℕ → Bool
no_end byte j = not (get_or byte (suc j) 0 == b';')

not-true : (b : Bool) → not b ≡ true → b ≡ false
not-true b h = ground arith

behind_zeros :
    (xs : List ℕ) (n j : ℕ) → length xs ≤ j → ◌≡◌ {A = ℕ} (get_or (xs ++ replicate n 0) j 0) 0
behind_zeros [] zero j h = refl
behind_zeros [] (suc n) zero h = refl
behind_zeros [] (suc n) (suc j) h = behind_zeros [] n j (omega arith)
behind_zeros (x ∷ xs) n zero h = absurd (omega arith)
behind_zeros (x ∷ xs) n (suc j) h = behind_zeros xs n j (omega arith)

-- The characters from the second on, as a table.
middle_lem :
    (byte : List ℕ) (n j : ℕ)
    → passes_below (no_end byte) n ≡ true
    → 0 < j
    → j ≤ n
    → (get_or byte j 0 == b';') ≡ false
middle_lem byte n zero table pos le = absurd (omega arith)
middle_lem byte n (suc j) table pos le =
    not-true (get_or byte (suc j) 0 == b';')
      (passes_below_lem (no_end byte) n j (omega arith) table)

extended-IsHead : (id : ℕ) → IsHead (extended_header id blank.byte)
unfolding extended_header passes_below
extended-IsHead id = record {
  room = refl;
  size = (omega arith, omega arith);
  start = refl;
  middle = λ j pos lt.
      middle_lem (extended_header id blank.byte).byte 9 j (simp (upper_no_end, lower_no_end)) pos
        (omega arith);
  behind = λ j le. behind_zeros (take 10 (extended_header id blank.byte).byte) 18 j le;
}

standard-IsHead : (id : ℕ) → IsHead (standard_header id blank.byte)
unfolding standard_header passes_below
standard-IsHead id = record {
  room = refl;
  size = (omega arith, omega arith);
  start = refl;
  middle = λ j pos lt.
      middle_lem (standard_header id blank.byte).byte 5 j (simp (upper_no_end, lower_no_end)) pos
        (omega arith);
  behind = λ j le. behind_zeros (take 6 (standard_header id blank.byte).byte) 22 j le;
}

header_of-IsHead : (f : CanFrame) (x : Bool) → IsHead (header_of f x)
header_of-IsHead f true = extended-IsHead f.id
header_of-IsHead f false = standard-IsHead f.id

-- The two digits of a data byte.
data_no_end :
    (f : CanFrame) (h : Cursor) (m : GcMessage)
    → IsFinished f h m
    → (j k b : ℕ) → j ≡ h.offset + 1 + 2 * k + b
    → b < 2
    → k < f.len
    → (get_or m.byte j 0 == b';') ≡ false
data_no_end f h m v j k zero e lt inside =
    let (hi, lo) = v.data_at k j (omega arith) inside in rw hi (upper_no_end (get_or f.bytes k 0))
data_no_end f h m v j k (suc zero) e lt inside =
    let (hi, lo) = v.data_at k (h.offset + 1 + 2 * k) refl inside in
    let at : j ≡ h.offset + 1 + 2 * k + 1 = omega arith in
    rw (at, lo) (lower_no_end (get_or f.bytes k 0))
data_no_end f h m v j k (suc (suc b)) e lt inside = absurd (omega arith)

finished-middle :
    (f : CanFrame) (h : Cursor) (m : GcMessage)
    → IsFinished f h m
    → IsHead h
    → (j : ℕ) → 0 < j
    → j + 1 < m.len
    → (get_or m.byte j 0 == b';') ≡ false
finished-middle f h m v head j pos lt = elim (Bool-cases (ltb j h.offset)) [
  | inl in_head ↦ ap (λ c. c == b';') (v.before j (ground arith)) ∙ head.middle j pos (ground arith)
  | inr e ↦ elim (Bool-cases (j == h.offset)) [
    | inl at_flag ↦
        let here : j ≡ h.offset = ground arith in
        rw (here, v.flag) (elim (Bool-cases f.rtr) [ inl r ↦ rw r refl | inr r ↦ rw r refl ])
    | inr past ↦
        let k : ℕ = (j - h.offset - 1) / 2 in
        let beyond : h.offset + 1 ≤ j = ground arith in
        data_no_end f h m v j k ((j - h.offset - 1) % 2) (omega arith) (omega arith)
          (omega (arith, v.size))
  ]
]

finish-IsText : (f : CanFrame) (h : Cursor) → IsHead h → f.len ≤ 8 → IsText (finish f h)
finish-IsText f h head short =
    let v = finish-IsFinished f h (omega (arith, head.room, head.size)) in
    record {
      room = v.room ∙ head.room;
      size = (omega (arith, v.size), omega (arith, v.size, head.size));
      start = v.before 0 (omega (arith, head.size)) ∙ head.start;
      middle = finished-middle f h (finish f h) v head;
      end_char = v.terminator;
      behind = λ j le. v.behind j (omega (arith, v.size)) ∙ head.behind j (omega (arith, v.size));
    }

-- What encodeGC makes of a frame that it accepts begins with its only colon, ends with its only semicolon, and the
-- rest of the array is zero.
pub encode_gc-IsText : (f : CanFrame) → not_encodable f ≡ false → IsText (encode_gc f).1
encode_gc-IsText f h =
    subst (λ r. IsText r.1) (sym (encode_gc-eq f f.ext refl h))
      (finish-IsText f (header_of f f.ext) (header_of-IsHead f f.ext) (ground arith))
