-- ===== src/GridConnect/Codec/Encode.antt =====
-- What encodeGC writes where.
use cbuspico_lib.Common.{
  ℕ, zero, suc, ◌+◌, ◌-◌, ◌*◌, ◌≤◌, ◌<◌, ◌≡◌, refl, ◌∙◌, List, arith, if◌then◌else◌, length, get_or,
  set, length-set, get_or-set_self, get_or-set_ne,
}
use cbuspico_lib.Frame.{CanFrame}
use cbuspico_lib.GridConnect.Hex.{upper, lower}
use cbuspico_lib.GridConnect.Codec.{GcMessage, Cursor, emit, encode_bytes, finish}

-- Every write of the data loop is two characters further on.
offset-encode_bytes :
    (bs : List ℕ) (n i : ℕ) (c : Cursor) → (encode_bytes bs n i c).offset ≡ c.offset + 2 * n
unfolding encode_bytes
offset-encode_bytes bs zero i c = omega arith
offset-encode_bytes bs (suc n) i c = omega (
  arith,
  offset-encode_bytes bs n (i + 1) (emit (emit c (upper (get_or bs i 0))) (lower (get_or bs i 0))),
)

length-encode_bytes :
    (bs : List ℕ) (n i : ℕ) (c : Cursor) → length (encode_bytes bs n i c).byte ≡ length c.byte
unfolding encode_bytes
length-encode_bytes bs zero i c = refl
length-encode_bytes bs (suc n) i c =
    length-encode_bytes bs n (i + 1) (emit (emit c (upper (get_or bs i 0))) (lower (get_or bs i 0)))
    ∙ length-set (set c.byte c.offset (upper (get_or bs i 0))) (c.offset + 1)
        (lower (get_or bs i 0))
    ∙ length-set c.byte c.offset (upper (get_or bs i 0))

-- The loop leaves what stands before its first write.
encode_bytes-before :
    (bs : List ℕ) (n i : ℕ) (c : Cursor) (j : ℕ)
    → j < c.offset
    → get_or (encode_bytes bs n i c).byte j 0 ≡ get_or c.byte j 0
unfolding encode_bytes
encode_bytes-before bs zero i c j h = refl
encode_bytes-before bs (suc n) i c j h =
    let hi = upper (get_or bs i 0) in
    let lo = lower (get_or bs i 0) in
    encode_bytes-before bs n (i + 1) (emit (emit c hi) lo) j (omega arith)
    ∙ get_or-set_ne (set c.byte c.offset hi) (c.offset + 1) j lo 0 (omega arith)
    ∙ get_or-set_ne c.byte c.offset j hi 0 (omega arith)

-- It also leaves what stands behind its last write.
encode_bytes-behind :
    (bs : List ℕ) (n i : ℕ) (c : Cursor) (j : ℕ)
    → c.offset + 2 * n ≤ j
    → get_or (encode_bytes bs n i c).byte j 0 ≡ get_or c.byte j 0
unfolding encode_bytes
encode_bytes-behind bs zero i c j h = refl
encode_bytes-behind bs (suc n) i c j h =
    let hi = upper (get_or bs i 0) in
    let lo = lower (get_or bs i 0) in
    encode_bytes-behind bs n (i + 1) (emit (emit c hi) lo) j (omega arith)
    ∙ get_or-set_ne (set c.byte c.offset hi) (c.offset + 1) j lo 0 (omega arith)
    ∙ get_or-set_ne c.byte c.offset j hi 0 (omega arith)

-- The two characters of the byte at index `i + k` stand 2 k places behind the first write.
encode_bytes-at :
    (bs : List ℕ) (n i : ℕ) (c : Cursor) (k p m : ℕ)
    → p ≡ c.offset + 2 * k
    → m ≡ i + k
    → c.offset + 2 * n ≤ length c.byte
    → k < n
    → (get_or (encode_bytes bs n i c).byte p 0 ≡ upper (get_or bs m 0))
      × (get_or (encode_bytes bs n i c).byte (p + 1) 0 ≡ lower (get_or bs m 0))
unfolding encode_bytes
encode_bytes-at bs zero i c k p m ep em h lt = absurd (omega arith)
encode_bytes-at bs (suc n) i c zero p m ep em h lt =
    let hi = upper (get_or bs i 0) in
    let lo = lower (get_or bs i 0) in
    let first = set c.byte c.offset hi in
    let same_index : m ≡ i = omega arith in
    let at : p ≡ c.offset = omega arith in
    rw (same_index, at)
      (
        encode_bytes-before bs n (i + 1) (emit (emit c hi) lo) c.offset (omega arith)
            ∙ get_or-set_ne first (c.offset + 1) c.offset lo 0 (omega arith)
            ∙ get_or-set_self c.byte c.offset hi 0 (omega arith),
        encode_bytes-before bs n (i + 1) (emit (emit c hi) lo) (c.offset + 1) (omega arith)
            ∙ get_or-set_self first (c.offset + 1) lo 0
                (omega (arith, length-set c.byte c.offset hi)),
      )
encode_bytes-at bs (suc n) i c (suc k) p m ep em h lt =
    let hi = upper (get_or bs i 0) in
    let lo = lower (get_or bs i 0) in
    let kept =
      length-set (set c.byte c.offset hi) (c.offset + 1) lo ∙ length-set c.byte c.offset hi in
    encode_bytes-at bs n (i + 1) (emit (emit c hi) lo) k p m (omega arith) (omega arith)
      (omega (arith, kept)) (omega arith)

-- What stands in a finished message, behind its header.
pub record IsFinished (f : CanFrame) (header : Cursor) (m : GcMessage) : Type 0 where
  pub room : length m.byte ≡ length header.byte
  pub before : (j : ℕ) → j < header.offset → get_or m.byte j 0 ≡ get_or header.byte j 0
  pub flag : get_or m.byte header.offset 0 ≡ (if f.rtr then b'R' else b'N')
  pub data_at :
      (k p : ℕ)
      → p ≡ header.offset + 1 + 2 * k
      → k < f.len
      → (get_or m.byte p 0 ≡ upper (get_or f.bytes k 0))
        × (get_or m.byte (p + 1) 0 ≡ lower (get_or f.bytes k 0))
  pub behind :
      (j : ℕ) → header.offset + 2 + 2 * f.len ≤ j → get_or m.byte j 0 ≡ get_or header.byte j 0
  pub size : m.len ≡ header.offset + 2 + 2 * f.len
  pub terminator : get_or m.byte (m.len - 1) 0 ≡ b';'

pub finish-IsFinished :
    (f : CanFrame) (header : Cursor)
    → header.offset + 2 + 2 * f.len ≤ length header.byte
    → IsFinished f header (finish f header)
unfolding finish
finish-IsFinished f header fits =
    let flag_char : ℕ = if f.rtr then b'R' else b'N' in
    let flagged : Cursor = emit header flag_char in
    let body : Cursor = encode_bytes f.bytes f.len 0 flagged in
    let at_end = offset-encode_bytes f.bytes f.len 0 flagged in
    let same_flagged = length-set header.byte header.offset flag_char in
    let same_body = length-encode_bytes f.bytes f.len 0 flagged in
    let kept =
      λ (j : ℕ) (h : j < body.offset). get_or-set_ne body.byte body.offset j b';' 0 (omega arith) in
    record {
      room = length-set body.byte body.offset b';' ∙ same_body ∙ same_flagged;
      before = λ j h.
          kept j (omega (arith, at_end))
          ∙ encode_bytes-before f.bytes f.len 0 flagged j (omega arith)
          ∙ get_or-set_ne header.byte header.offset j flag_char 0 (omega arith);
      flag =
          kept header.offset (omega (arith, at_end))
          ∙ encode_bytes-before f.bytes f.len 0 flagged header.offset (omega arith)
          ∙ get_or-set_self header.byte header.offset flag_char 0 (omega arith);
      data_at = λ k p e h.
          let (hi, lo) =
            encode_bytes-at f.bytes f.len 0 flagged k p k (omega arith) (omega arith)
              (omega (arith, same_flagged)) h in
          (kept p (omega (arith, at_end)) ∙ hi, kept (p + 1) (omega (arith, at_end)) ∙ lo);
      behind = λ j h.
          get_or-set_ne body.byte body.offset j b';' 0 (omega (arith, at_end))
          ∙ encode_bytes-behind f.bytes f.len 0 flagged j (omega arith)
          ∙ get_or-set_ne header.byte header.offset j flag_char 0 (omega arith);
      size = omega (arith, at_end);
      terminator =
          let last : body.offset + 1 - 1 ≡ body.offset = omega arith in
          rw last (
            get_or-set_self body.byte body.offset b';' 0
              (omega (arith, at_end, same_body, same_flagged)));
    }
