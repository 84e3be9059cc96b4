-- ===== src/Node/Enumerate/Answers.antt =====
-- An enumeration of CBUSbase as a whole: the answers that checkIncomingFrame marks after the start, and the CAN ID that is
-- picked from them.
use cbuspico_lib.Common.{
  ℕ, zero, suc, ◌/◌, ◌%◌, ◌^◌, ◌<◌, ◌≡◌, refl, sym, ap, ◌∙◌, ◌⊎◌, inl, inr, Bool, true, false, ◌&&◌,
  ◌||◌, none, some, List, [], ◌∷◌, arith, ltb, ◌==◌, if◌then◌else◌, ==_iff, Bool-cases,
  passes_below, passes_below_lem, length, get_or, set, replicate, length-set, get_or-set_self,
  get_or-set_ne,
}
use cbuspico_lib.Node.{Node}
use cbuspico_lib.Node.Enumerate.{set_bit, mark_response, start_enumeration, lowest_free}
use cbuspico_lib.Node.Enumerate.Lowest.{bit_of, lowest_free-lowest}

-- Whether the answer with an identifier marks the bit of an ID: sixteen identifiers share a byte, and two of them a bit.
abbrev pub hits : ℕ → ℕ → Bool
hits answer id = answer / 16 == id / 8 && answer % 8 == id % 8

-- The IDs that count as taken after some answers, the latest one first: ID 0 and those whose bit an answer marked.
unfoldable pub taken : List ℕ → ℕ → Bool
taken [] id = id == 0
taken (a ∷ answers) id = hits a id || taken answers id

-- Answers that come in after the start of an enumeration, the latest one first.
unfoldable pub hear_all : {Bus : Type 0} → Node Bus → List ℕ → Node Bus
hear_all n [] = n
hear_all n (a ∷ answers) = mark_response (hear_all n answers) a

-- Every number of a list is below a bound.
unfoldable pub AllBelow : ℕ → List ℕ → Type 0
AllBelow bound [] = Unit {0}
AllBelow bound (x ∷ xs) = (x < bound) × AllBelow bound xs

-- A bit of a byte after another one was set, for each byte.
abbrev sets_bit : ℕ → Bool
sets_bit e =
    passes_below
      (λ k.
        ltb (set_bit e k) 256
        && passes_below (λ j. set_bit e k / 2 ^ j % 2 == (if k == j then 1 else e / 2 ^ j % 2)) 8)
      8

bit_table : passes_below sets_bit 256 ≡ true
unfolding passes_below
bit_table = refl

set_bit_lem :
    (e k : ℕ)
    → e < 256
    → k < 8
    → (set_bit e k < 256)
      × ((j : ℕ) → j < 8 → set_bit e k / 2 ^ j % 2 ≡ (if k == j then 1 else e / 2 ^ j % 2))
set_bit_lem e k he hk =
    let bits = λ (j : ℕ). set_bit e k / 2 ^ j % 2 == (if k == j then 1 else e / 2 ^ j % 2) in
    let both : (ltb (set_bit e k) 256 && passes_below bits 8) ≡ true =
      passes_below_lem
        (λ k.
          ltb (set_bit e k) 256
          && passes_below (λ j. set_bit e k / 2 ^ j % 2 == (if k == j then 1 else e / 2 ^ j % 2)) 8)
        8 k hk (passes_below_lem sets_bit 256 e he bit_table) in
    let all : passes_below bits 8 ≡ true = ground arith in
    (ground arith, λ j lt. (==_iff _ _).0 (passes_below_lem bits 8 j lt all))

-- The array of responses says which IDs are taken.
record IsMarked (responses answers : List ℕ) : Type 0 where
  size : length responses ≡ 16
  bytes : (i : ℕ) → get_or responses i 0 < 256
  bits : (id : ℕ) → id < 128 → bit_of responses id ≡ (if taken answers id then 1 else 0)

abbrev marked : List ℕ → ℕ → List ℕ
marked responses a = set responses (a / 16) (set_bit (get_or responses (a / 16) 0) (a % 8))

get_or-set_bound :
    (xs : List ℕ) (i j v b : ℕ)
    → v < b
    → ((k : ℕ) → get_or xs k 0 < b)
    → get_or (set xs i v) j 0 < b
get_or-set_bound [] i j v b hv h = h j
get_or-set_bound (x ∷ xs) zero zero v b hv h = hv
get_or-set_bound (x ∷ xs) zero (suc j) v b hv h = h (suc j)
get_or-set_bound (x ∷ xs) (suc i) zero v b hv h = h zero
get_or-set_bound (x ∷ xs) (suc i) (suc j) v b hv h = get_or-set_bound xs i j v b hv (λ k. h (suc k))

marked-bit :
    (responses : List ℕ) (a id : ℕ)
    → length responses ≡ 16
    → ((i : ℕ) → get_or responses i 0 < 256)
    → id < 128
    → bit_of (marked responses a) id ≡ (if hits a id then 1 else bit_of responses id)
marked-bit responses a id size bytes lt =
    let old = get_or responses (a / 16) 0 in
    let new = set_bit old (a % 8) in
    elim (Bool-cases (a / 16 == id / 8)) [
      | inr apart ↦
          let other : get_or (marked responses a) (id / 8) 0 ≡ get_or responses (id / 8) 0 =
            get_or-set_ne responses (a / 16) (id / 8) new 0 (λ e. ground arith) in
          rw apart (ap (λ x. x / 2 ^ (id % 8) % 2) other)
      | inl shared ↦
          let place : a / 16 ≡ id / 8 = (==_iff (a / 16) (id / 8)).0 shared in
          let there : get_or (marked responses a) (id / 8) 0 ≡ new =
            ap (λ i. get_or (marked responses a) i 0) (sym place)
            ∙ get_or-set_self responses (a / 16) new 0 (omega (arith, size)) in
          let bit =
            (set_bit_lem old (a % 8) (bytes (a / 16)) (omega arith)).1 (id % 8) (omega arith) in
          rw shared (
            ap (λ x. x / 2 ^ (id % 8) % 2) there
            ∙ bit
            ∙ ap (λ x. if a % 8 == id % 8 then 1 else get_or responses x 0 / 2 ^ (id % 8) % 2)
                place)
    ]

marked-IsMarked :
    (responses answers : List ℕ) (a : ℕ)
    → IsMarked responses answers
    → IsMarked (marked responses a) (a ∷ answers)
unfolding taken
marked-IsMarked responses answers a m =
    let old = get_or responses (a / 16) 0 in
    let small = (set_bit_lem old (a % 8) (m.bytes (a / 16)) (omega arith)).0 in
    record {
      size = length-set responses (a / 16) (set_bit old (a % 8)) ∙ m.size;
      bytes = λ i. get_or-set_bound responses (a / 16) i (set_bit old (a % 8)) 256 small m.bytes;
      bits = λ id lt. marked-bit responses a id m.size m.bytes lt ∙ elim (Bool-cases (hits a id)) [
        | inl hit ↦ rw hit refl
        | inr miss ↦ rw miss (m.bits id lt)
      ];
    }

first_bytes : (i : ℕ) → get_or (1 ∷ replicate 15 0) i 0 < 256
first_bytes zero = omega arith
first_bytes (suc i) = zeros 15 i
  where
    zeros : (n i : ℕ) → get_or (replicate n 0) i 0 < 256
    zeros zero i = omega arith
    zeros (suc n) zero = omega arith
    zeros (suc n) (suc i) = zeros n i

first_table :
    passes_below (λ id. bit_of (1 ∷ replicate 15 0) id == (if id == 0 then 1 else 0)) 128 ≡ true
unfolding passes_below
first_table = refl

hear_all-IsMarked :
    {Bus : Type 0} (n : Node Bus) (now : ℕ) (answers : List ℕ)
    → IsMarked (hear_all (start_enumeration n now) answers).enum_responses answers
unfolding hear_all taken start_enumeration mark_response
hear_all-IsMarked n now [] = record {
  size = refl;
  bytes = first_bytes;
  bits = λ id lt. (==_iff _ _).0 (
      passes_below_lem (λ id. bit_of (1 ∷ replicate 15 0) id == (if id == 0 then 1 else 0)) 128 id
        lt first_table);
}
hear_all-IsMarked n now (a ∷ answers) =
    marked-IsMarked (hear_all (start_enumeration n now) answers).enum_responses answers a
      (hear_all-IsMarked n now answers)

-- The outcome of an enumeration after some answers.
abbrev pub IsChosen : List ℕ → List ℕ → Type 0
IsChosen responses answers =
    ((lowest_free responses ≡ none) × ((id : ℕ) → id < 128 → taken answers id ≡ true))
    ⊎ ((id : ℕ) × ((lowest_free responses ≡ some id)
          × ((id < 128)
              × ((taken answers id ≡ false) × ((j : ℕ) → j < id → taken answers j ≡ true)))))

abbrev bit : Bool → ℕ
bit b = if b then 1 else 0

bit_taken : (b : Bool) → bit b ≡ 1 → b ≡ true
bit_taken true e = refl
bit_taken false e = absurd (omega (arith, e))

bit_clear : (b : Bool) → bit b ≡ 0 → b ≡ false
bit_clear true e = absurd (omega (arith, e))
bit_clear false e = refl

-- After the start of an enumeration, and any answers whose identifiers mark bytes of the array (below 256), the ID that is
-- picked is the lowest of the 128 that is neither ID 0 nor marked, where an answer with identifier a marks the ID
-- id when a / 16 = id / 8 and a % 8 = id % 8 (so an answer of ID 9 marks ID 1 and not ID 9); if all are marked, none
-- is picked.
pub lowest_free-hear_all :
    {Bus : Type 0} (n : Node Bus) (now : ℕ) (answers : List ℕ)
    → AllBelow 256 answers
    → IsChosen (hear_all (start_enumeration n now) answers).enum_responses answers
lowest_free-hear_all n now answers below =
    let m = hear_all-IsMarked n now answers in
    let responses = (hear_all (start_enumeration n now) answers).enum_responses in
    elim (lowest_free-lowest responses m.size m.bytes) [
      | inl (nothing, all) ↦
          inl (nothing, λ id lt. bit_taken (taken answers id) (sym (m.bits id lt) ∙ all id lt))
      | inr (id, (found, (lt, (clear, lower)))) ↦ inr (
        id,
        (
          found,
          (
            lt,
            (
              bit_clear (taken answers id) (sym (m.bits id lt) ∙ clear),
              λ j less.
                  bit_taken (taken answers j)
                    (sym (m.bits j (omega (arith, less, lt))) ∙ lower j less),
            ),
          ),
        ),
      )
    ]
