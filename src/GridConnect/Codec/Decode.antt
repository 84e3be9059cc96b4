-- ===== src/GridConnect/Codec/Decode.antt =====
-- What decodeGC reads from where, and that what it accepts is a CAN frame.
use cbuspico_lib.Common.{
  ℕ, zero, suc, ◌+◌, ◌-◌, ◌*◌, ◌^◌, ◌≤◌, ◌<◌, ◌≡◌, refl, sym, ◌∙◌, true, ◌&&◌, some, List, [], ◌∷◌,
  ◌++◌, arith, ltb, leb, if◌then◌else◌, length, get_or, set, take, replicate, length-append,
  length-set, length-take, length-replicate, get_or-set, get_or-replicate, array_ext,
}
use cbuspico_lib.Frame.{AllBytes}
use cbuspico_lib.GridConnect.Hex.{
  upper, lower, hex_to_uint8, check_hex_chars, hex_char_ok-upper, hex_char_ok-lower,
  hex_to_uint8-pair,
}
use cbuspico_lib.GridConnect.Codec.{decode_bytes}

pub AllBytes-get_or : (bs : List ℕ) (i : ℕ) → AllBytes bs → get_or bs i 0 < 2 ^ 8
AllBytes-get_or [] i h = omega arith
AllBytes-get_or (b ∷ bs) zero h = h.0
AllBytes-get_or (b ∷ bs) (suc i) h = AllBytes-get_or bs i h.1

-- The data array with `n` entries of `ds` from index `i` on written over it.
pub fill : List ℕ → ℕ → ℕ → List ℕ → List ℕ
fill ds zero i bs = bs
fill ds (suc n) i bs = fill ds n (i + 1) (set bs i (get_or ds i 0))

length-fill : (ds : List ℕ) (n i : ℕ) (bs : List ℕ) → length (fill ds n i bs) ≡ length bs
unfolding fill
length-fill ds zero i bs = refl
length-fill ds (suc n) i bs =
    length-fill ds n (i + 1) (set bs i (get_or ds i 0)) ∙ length-set bs i (get_or ds i 0)

get_or-fill :
    (ds : List ℕ) (n i : ℕ) (bs : List ℕ) (j : ℕ)
    → i + n ≤ length bs
    → get_or (fill ds n i bs) j 0
      ≡ (if leb i j && ltb j (i + n) then get_or ds j 0 else get_or bs j 0)
unfolding fill
get_or-fill ds zero i bs j h = ground arith
get_or-fill ds (suc n) i bs j h = ground (
  arith,
  get_or-fill ds n (i + 1) (set bs i (get_or ds i 0)) j,
  length-set bs i (get_or ds i 0),
  get_or-set bs i j (get_or ds i 0) 0,
)

get_or-take :
    (bs : List ℕ) (n m j : ℕ)
    → n ≤ length bs
    → get_or (take n bs ++ replicate m 0) j 0 ≡ (if ltb j n then get_or bs j 0 else 0)
get_or-take bs zero zero j h = ground arith
get_or-take bs zero (suc m) zero h = ground arith
get_or-take bs zero (suc m) (suc j) h = get_or-take bs zero m j (omega arith) ∙ ground arith
get_or-take [] (suc n) m j h = absurd (omega arith)
get_or-take (b ∷ bs) (suc n) m zero h = ground arith
get_or-take (b ∷ bs) (suc n) m (suc j) h = ground (arith, get_or-take bs n m j (omega arith))

-- The pair of characters that stands for a byte passes the check and is read back as the byte.
pub pair_lem :
    (byte : List ℕ) (p u : ℕ)
    → get_or byte p 0 ≡ upper u
    → get_or byte (p + 1) 0 ≡ lower u
    → u < 2 ^ 8
    → (check_hex_chars byte p 2 ≡ true)
      × (hex_to_uint8
            (record { upper_nibble = get_or byte p 0; lower_nibble = get_or byte (p + 1) 0 })
          ≡ u)
unfolding check_hex_chars
pair_lem byte p u hi lo h =
    rw (hi, lo) (rw (hex_char_ok-upper u, hex_char_ok-lower u), hex_to_uint8-pair u h)

-- The data loop reads `n` pairs that stand for the bytes of `ds` from index `i` on.
pub decode_bytes_lem :
    (byte ds : List ℕ) (n i offset : ℕ) (bs : List ℕ)
    → AllBytes ds
    → ((k p m : ℕ)
        → p ≡ offset + 2 * k
        → m ≡ i + k
        → k < n
        → (get_or byte p 0 ≡ upper (get_or ds m 0))
          × (get_or byte (p + 1) 0 ≡ lower (get_or ds m 0)))
    → decode_bytes byte n i offset bs ≡ some (fill ds n i bs)
unfolding decode_bytes fill
decode_bytes_lem byte ds zero i offset bs all h = refl
decode_bytes_lem byte ds (suc n) i offset bs all h =
    let (hi, lo) = h 0 offset i (omega arith) (omega arith) (omega arith) in
    let (ok, value) = pair_lem byte offset (get_or ds i 0) hi lo (AllBytes-get_or ds i all) in
    rw (ok, value)
      (decode_bytes_lem byte ds n (i + 1) (offset + 2) (set bs i (get_or ds i 0)) all
        (λ k p m ep em lt. h (suc k) p m (omega arith) (omega arith) (omega arith)))

-- Read into an empty frame, the data are the used bytes and zeros behind them.
pub fill_used :
    (ds : List ℕ) (n : ℕ)
    → length ds ≡ 8
    → n ≤ 8
    → fill ds n 0 (replicate 8 0) ≡ take n ds ++ replicate (8 - n) 0
fill_used ds n e h =
    let long = length-fill ds n 0 (replicate 8 0) in
    array_ext (fill ds n 0 (replicate 8 0)) (take n ds ++ replicate (8 - n) 0) 0
      (omega (
        arith,
        long,
        length-append (take n ds) (replicate (8 - n) 0),
        length-take n ds,
        length-replicate {A = ℕ} (8 - n) 0,
      ))
      (λ i p.
        get_or-fill ds n 0 (replicate 8 0) i (omega arith)
        ∙ ground (arith, get_or-replicate {A = ℕ} 8 i 0 0)
        ∙ sym (get_or-take ds n (8 - n) i (omega arith)))
