-- ===== src/Node/Enumerate/Lowest.antt =====
-- The CAN ID that self-enumeration of CBUSbase picks, from the array of the responses.
use cbuspico_lib.Common.{
  ℕ, zero, suc, ◌+◌, ◌*◌, ◌/◌, ◌%◌, ◌^◌, ◌<◌, ◌≡◌, refl, ap, ap₂, ◌∙◌, subst, ◌≢◌, ◌⊎◌, inl, inr,
  Bool, true, false, ◌&&◌, ◌||◌, not, none, some, List, [], ◌∷◌, arith, ltb, ◌==◌, ltb→lt, ==_iff,
  Bool-cases, passes_below, passes_below_lem, length, get_or, u8, shr,
}
use cbuspico_lib.Node.Enumerate.{free_byte, shift_out, id_of, lowest_free}

-- The bit of an ID in the array of responses, where the search looks for it.
abbrev pub bit_of : List ℕ → ℕ → ℕ
bit_of responses id = get_or responses (id / 8) 0 / 2 ^ (id % 8) % 2

-- The lowest clear bit of a byte that is not full: a test for each byte.
abbrev finds_clear : ℕ → Bool
finds_clear e =
    let n = shift_out 8 e 0 in
    (e == 0xFF)
    || ((ltb n 8 && e / 2 ^ n % 2 == 0)
        && passes_below (λ k. not (ltb k n) || (e / 2 ^ k % 2 == 1)) 8)

table : passes_below finds_clear 256 ≡ true
unfolding passes_below shift_out
table = refl

shift_out-base :
    (rounds e a b : ℕ)
    → a + b + rounds < 256
    → shift_out rounds e (a + b) ≡ a + shift_out rounds e b
unfolding shift_out
shift_out-base zero e a b h = refl
shift_out-base (suc rounds) e a b h = elim (Bool-cases (e % 2 == 1)) [
  | inr clear ↦ rw clear refl
  | inl is_set ↦ rw is_set (
      ap (shift_out rounds (shr e 1)) (omega arith)
      ∙ shift_out-base rounds (shr e 1) a (b + 1) (omega arith)
      ∙ ap (λ x. a + shift_out rounds (shr e 1) x) (omega arith))
]

-- What the search for a byte finds.
record IsFirst (responses : List ℕ) (k e : ℕ) : Type 0 where
  inside : k < length responses
  byte : get_or responses k 0 ≡ e
  not_full : e ≢ 0xFF
  full : (j : ℕ) → j < k → get_or responses j 0 ≡ 0xFF

first_or_later :
    (r : ℕ) (rs : List ℕ) (j : ℕ)
    → r ≡ 0xFF
    → ((l : ℕ) → suc l ≡ j → get_or rs l 0 ≡ 0xFF)
    → get_or (r ∷ rs) j 0 ≡ 0xFF
first_or_later r rs zero e h = e
first_or_later r rs (suc j) e h = h j refl

-- Every byte is full, or there is a first one that is not.
abbrev Search : ℕ → List ℕ → Type 0
Search i responses =
    (free_byte i responses ≡ none × ((j : ℕ) → j < length responses → get_or responses j 0 ≡ 0xFF))
    ⊎ ((k : ℕ) × ((e : ℕ) × ((free_byte i responses ≡ some (i + k, e)) × IsFirst responses k e)))

free_byte-Search : (i : ℕ) (responses : List ℕ) → Search i responses
unfolding free_byte
free_byte-Search i [] = inl (refl, λ j lt. absurd (omega arith))
free_byte-Search i (r ∷ responses) = elim (Bool-cases (r == 0xFF)) [
  | inr here ↦ inr (
    0,
    (
      r,
      (
        rw here (ap (λ x. some (x, r)) (omega arith)),
        record {
          inside = omega arith;
          byte = refl;
          not_full = λ e. ground arith;
          full = λ j lt. absurd (omega arith);
        },
      ),
    ),
  )
  | inl full ↦ elim (free_byte-Search (i + 1) responses) [
    | inl (nothing, all) ↦ inl (
      rw full nothing,
      λ j lt. first_or_later r responses j ((==_iff r 0xFF).0 full) (λ l e. all l (omega arith)),
    )
    | inr (k, (e, (found, first))) ↦ inr (
      suc k,
      (
        e,
        (
          rw full (found ∙ ap (λ x. some (x, e)) (omega arith)),
          record {
            inside = omega (arith, first.inside);
            byte = first.byte;
            not_full = first.not_full;
            full = λ j lt.
                first_or_later r responses j ((==_iff r 0xFF).0 full)
                  (λ l e. first.full l (omega arith));
          },
        ),
      ),
    )
  ]
]

-- A byte that is not full, with its lowest clear bit.
byte_lem :
    (e : ℕ)
    → e < 256
    → e ≢ 0xFF
    → (shift_out 8 e 0 < 8)
      × ((e / 2 ^ shift_out 8 e 0 % 2 ≡ 0) × ((k : ℕ) → k < shift_out 8 e 0 → e / 2 ^ k % 2 ≡ 1))
byte_lem e lt ne =
    let test = passes_below_lem finds_clear 256 e lt table in
    let n = shift_out 8 e 0 in
    let lower = λ (k : ℕ). not (ltb k n) || (e / 2 ^ k % 2 == 1) in
    let not_full : (e == 0xFF) ≡ false = ground arith in
    let both : ((ltb n 8 && e / 2 ^ n % 2 == 0) && passes_below lower 8) ≡ true = ground arith in
    let all_lower : passes_below lower 8 ≡ true = ground arith in
    let inside : n < 8 = ground arith in
    (
      inside,
      (ground arith, λ k below. ground (arith, passes_below_lem lower 8 k (omega arith) all_lower)),
    )

full_bits : passes_below (λ k. 0xFF / 2 ^ k % 2 == 1) 8 ≡ true
unfolding passes_below
full_bits = refl

-- The bit of an ID of a byte that is full, and of any byte.
bit_of-full :
    (responses : List ℕ) (id : ℕ) → get_or responses (id / 8) 0 ≡ 0xFF → bit_of responses id ≡ 1
bit_of-full responses id e =
    ap (λ x. x / 2 ^ (id % 8) % 2) e
    ∙ (==_iff _ _).0
        (passes_below_lem (λ k. 0xFF / 2 ^ k % 2 == 1) 8 (id % 8) (omega arith) full_bits)

bit_of-in :
    (responses : List ℕ) (id k b e : ℕ)
    → id / 8 ≡ k
    → id % 8 ≡ b
    → get_or responses k 0 ≡ e
    → bit_of responses id ≡ e / 2 ^ b % 2
bit_of-in responses id k b e hk hb he =
    ap₂ (λ x y. get_or responses x 0 / 2 ^ y % 2) hk hb ∙ ap (λ x. x / 2 ^ b % 2) he

-- The ID that is picked is the lowest whose bit is clear, or all bits are set and none is picked.
abbrev pub IsPicked : List ℕ → Type 0
IsPicked responses =
    ((lowest_free responses ≡ none) × ((id : ℕ) → id < 128 → bit_of responses id ≡ 1))
    ⊎ ((id : ℕ) × ((lowest_free responses ≡ some id)
          × ((id < 128)
              × ((bit_of responses id ≡ 0) × ((j : ℕ) → j < id → bit_of responses j ≡ 1)))))

-- For sixteen bytes of responses.
pub lowest_free-lowest :
    (responses : List ℕ)
    → length responses ≡ 16
    → ((i : ℕ) → get_or responses i 0 < 256)
    → IsPicked responses
unfolding lowest_free
lowest_free-lowest responses len bytes = elim (free_byte-Search 0 responses) [
  | inl (nothing, all) ↦
      inl (ap id_of nothing, λ id lt. bit_of-full responses id (all (id / 8) (omega (arith, len))))
  | inr (k, (e, (found, first))) ↦
      let found_bit = byte_lem e (subst (λ x. x < 256) first.byte (bytes k)) first.not_full in
      let n = shift_out 8 e 0 in
      let picked : shift_out 8 e (u8 ((0 + k) * 8)) ≡ 8 * k + n =
        ap (shift_out 8 e) (omega (arith, first.inside, len))
        ∙ shift_out-base 8 e (8 * k) 0 (omega (arith, first.inside, len)) in
      inr (
        8 * k + n,
        (
          ap id_of found ∙ ap some picked,
          (
            omega (arith, first.inside, len, found_bit.0),
            (
              bit_of-in responses (8 * k + n) k n e (omega (arith, found_bit.0))
                    (omega (arith, found_bit.0)) first.byte
                  ∙ found_bit.1.0,
              λ j lt. elim (Bool-cases (ltb (j / 8) k)) [
                | inl earlier ↦
                    bit_of-full responses j (first.full (j / 8) (ltb→lt (j / 8) k earlier))
                | inr same_byte ↦
                    let in_byte : j / 8 ≡ k = ground (arith, found_bit.0) in
                    bit_of-in responses j k (j % 8) e in_byte refl first.byte
                    ∙ found_bit.1.1 (j % 8) (omega (arith, found_bit.0))
              ],
            ),
          ),
        ),
      )
]
