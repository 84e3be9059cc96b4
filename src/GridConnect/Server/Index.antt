-- ===== src/GridConnect/Server/Index.antt =====
-- The position of a character in a text, as the search for the delimiters of a Grid Connect message uses it.
use cbuspico_lib.Common.{
  ℕ, suc, ◌≤◌, ◌<◌, ◌≡◌, refl, sym, ap, ◌∙◌, subst, inl, inr, true, false, Option, none, some, List,
  [], ◌∷◌, ◌++◌, arith, ◌==◌, if◌then◌else◌, ==_iff, Bool-cases, length, drop,
}

abbrev pub later : Option ℕ → Option ℕ
later none = none
later (some i) = some (suc i)

-- The position of a character.
unfoldable pub index : ℕ → List ℕ → Option ℕ
index b [] = none
index b (x ∷ xs) = let rest = index b xs in if x == b then some 0 else later rest

index-hit : (b x : ℕ) (xs : List ℕ) → (x == b) ≡ true → index b (x ∷ xs) ≡ some 0
unfolding index
index-hit b x xs h = rw h refl

pub index-miss : (b x : ℕ) (xs : List ℕ) → (x == b) ≡ false → index b (x ∷ xs) ≡ later (index b xs)
unfolding index
index-miss b x xs h = rw h refl

later-none : (o : Option ℕ) → later o ≡ none → o ≡ none
later-none none e = refl
later-none (some i) e = absurd (ground arith)

later-some : (o : Option ℕ) (i : ℕ) → later o ≡ some i → (j : ℕ) × (i ≡ suc j) × (o ≡ some j)
later-some none i e = absurd (ground arith)
later-some (some j) i e = (j, cc, refl)

pub index-miss_none :
    (b x : ℕ) (xs : List ℕ) → (x == b) ≡ false → index b (x ∷ xs) ≡ none → index b xs ≡ none
index-miss_none b x xs h e = later-none (index b xs) (sym (index-miss b x xs h) ∙ e)

pub index-miss_some :
    (b x : ℕ) (xs : List ℕ) (i : ℕ)
    → (x == b) ≡ false
    → index b (x ∷ xs) ≡ some i
    → (j : ℕ) × (i ≡ suc j) × (index b xs ≡ some j)
index-miss_some b x xs i h e = later-some (index b xs) i (sym (index-miss b x xs h) ∙ e)

pub index-hit_some :
    (b x : ℕ) (xs : List ℕ) (i : ℕ) → (x == b) ≡ true → index b (x ∷ xs) ≡ some i → i ≡ 0
index-hit_some b x xs i h e = let e0 = index-hit b x xs h in cc

pub index-hit_none :
    {A : Type 0} (b x : ℕ) (xs : List ℕ) → (x == b) ≡ true → index b (x ∷ xs) ≡ none → A
index-hit_none b x xs h e = let e0 = sym (index-hit b x xs h) ∙ e in absurd (ground arith)

pub index-nil : {A : Type 0} (b i : ℕ) → index b [] ≡ some i → A
unfolding index
index-nil b i h = absurd (ground arith)

-- What is found stands there.
pub index-drop :
    (b : ℕ) (xs : List ℕ) (i : ℕ)
    → index b xs ≡ some i
    → (drop i xs ≡ b ∷ drop (suc i) xs) × (i < length xs)
index-drop b [] i h = index-nil b i h
index-drop b (x ∷ xs) i h = elim (Bool-cases (x == b)) [
  | inl e ↦
      subst (λ k. (drop k (x ∷ xs) ≡ b ∷ drop k xs) × (k < length (x ∷ xs)))
        (sym (index-hit_some b x xs i e h)) (ap (λ y. y ∷ xs) ((==_iff x b).0 e), omega arith)
  | inr n ↦
      let (j, ej, h') = index-miss_some b x xs i n h in
      let (d, l) = index-drop b xs j h' in
      subst (λ k. (drop k (x ∷ xs) ≡ b ∷ drop k xs) × (k < length (x ∷ xs))) (sym ej)
        (d, omega arith)
]

-- What is absent from the first part is found behind it.
pub index-append :
    (b : ℕ) (xs ys : List ℕ) (i : ℕ)
    → index b xs ≡ none
    → index b (xs ++ ys) ≡ some i
    → length xs ≤ i
index-append b [] ys i n h = omega arith
index-append b (x ∷ xs) ys i n h = elim (Bool-cases (x == b)) [
  | inl e ↦ index-hit_none b x xs e n
  | inr m ↦
      let (j, ej, h') = index-miss_some b x (xs ++ ys) i m h in
      let l = index-append b xs ys j (index-miss_none b x xs m n) h' in omega arith
]

pub index-snoc :
    (b : ℕ) (xs : List ℕ) (x : ℕ)
    → index b xs ≡ none
    → (x == b) ≡ false
    → index b (xs ++ x ∷ []) ≡ none
unfolding index
index-snoc b [] x n m = rw m refl
index-snoc b (y ∷ xs) x n m = elim (Bool-cases (y == b)) [
  | inl e ↦ index-hit_none b y xs e n
  | inr k ↦ rw (k, index-snoc b xs x (index-miss_none b y xs k n) m) refl
]
