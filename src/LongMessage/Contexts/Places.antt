-- ===== src/LongMessage/Contexts/Places.antt =====
-- Where the search of CBUSLongMessageEx for a context ends, and what writing a context changes.
use cbuspico_lib.Common.{
  ℕ, zero, suc, ◌<◌, ◌≡◌, refl, sym, ap, ◌∙◌, subst, ◌≢◌, inl, inr, Bool, true, false, Option, none,
  some, List, [], ◌∷◌, arith, if◌then◌else◌, Bool-cases, length, get_elem?, set,
}
use cbuspico_lib.LongMessage.Contexts.{find, shifted}

module _ {A : Type 0} where
  -- What a search finds: a place that passes the test, with nothing before it that does.
  abbrev pub FoundAt : (A → Bool) → List A → ℕ → A → Type 0
  FoundAt test cs i c = (get_elem? cs i ≡ some c) × (test c ≡ true)

  some_pair :
      (i j : ℕ) (c d : A) → ◌≡◌ {A = Option (ℕ × A)} (some (i, c)) (some (j, d)) → (i ≡ j) × (c ≡ d)
  some_pair i j c d e = (
    ap (λ o. elim o as (λ x. ℕ) [ none ↦ 0 | some (k, x) ↦ k ]) e,
    ap (λ o. elim o as (λ x. A) [ none ↦ c | some (k, x) ↦ x ]) e,
  )

  shifted-FoundAt :
      (test : A → Bool) (d : A) (cs : List A) (o : Option (ℕ × A)) (i : ℕ) (c : A)
      → ((j : ℕ) (e : A) → o ≡ some (j, e) → FoundAt test cs j e)
      → shifted o ≡ some (i, c)
      → FoundAt test (d ∷ cs) i c
  shifted-FoundAt test d cs none i c h e = absurd (ground arith)
  shifted-FoundAt test d cs (some (j, e')) i c h e =
      let (place, entry) = some_pair (suc j) i e' c e in
      subst (λ k. FoundAt test (d ∷ cs) k c) place
        (subst (λ x. FoundAt test (d ∷ cs) (suc j) x) entry (h j e' refl))

  pub find-FoundAt :
      (test : A → Bool) (cs : List A) (i : ℕ) (c : A)
      → find test cs ≡ some (i, c)
      → FoundAt test cs i c
  unfolding find
  find-FoundAt test [] i c e = absurd (ground arith)
  find-FoundAt test (d ∷ cs) i c e = elim (Bool-cases (test d)) [
    | inl passes ↦
        let found = ap (λ b. if b then some (0, d) else shifted (find test cs)) (sym passes) ∙ e in
        let (place, entry) = some_pair 0 i d c found in
        subst (λ k. FoundAt test (d ∷ cs) k c) place
          (subst (λ x. FoundAt test (d ∷ cs) 0 x) entry (refl, passes))
    | inr fails ↦
        shifted-FoundAt test d cs (find test cs) i c (find-FoundAt test cs)
          (ap (λ b. if b then some (0, d) else shifted (find test cs)) (sym fails) ∙ e)
  ]

  shifted-none : (o : Option (ℕ × A)) → shifted o ≡ none → o ≡ none
  shifted-none none e = refl
  shifted-none (some (i, c)) e = absurd (ground arith)

  -- If the first and all later entries fail, every entry does.
  place_fails :
      (test : A → Bool) (c : A) (cs : List A) (j : ℕ) (d : A)
      → test c ≡ false
      → ((k : ℕ) (e : A) → get_elem? cs k ≡ some e → test e ≡ false)
      → get_elem? (c ∷ cs) j ≡ some d
      → test d ≡ false
  place_fails test c cs zero d fails rest found =
      let here : c ≡ d = ap (λ o. elim o as (λ x. A) [ none ↦ c | some x ↦ x ]) found in
      ap test (sym here) ∙ fails
  place_fails test c cs (suc j) d fails rest found = rest j d found

  -- When nothing is found, nothing passes.
  pub find-none :
      (test : A → Bool) (cs : List A) (j : ℕ) (d : A)
      → find test cs ≡ none
      → get_elem? cs j ≡ some d
      → test d ≡ false
  unfolding find
  find-none test [] j d e found = absurd (ground arith)
  find-none test (c ∷ cs) j d e found = elim (Bool-cases (test c)) [
    | inl passes ↦
        let nothing =
          ap (λ b. if b then some (0, c) else shifted (find test cs)) (sym passes) ∙ e in
        absurd (ground arith)
    | inr fails ↦
        let rest =
          shifted-none (find test cs)
            (ap (λ b. if b then some (0, c) else shifted (find test cs)) (sym fails) ∙ e) in
        place_fails test c cs j d fails (λ k e' f. find-none test cs k e' rest f) found
  ]

  -- The only place that passes is found.
  pub find-only :
      (test : A → Bool) (cs : List A) (i : ℕ) (c : A)
      → get_elem? cs i ≡ some c
      → test c ≡ true
      → ((j : ℕ) (d : A) → j ≢ i → get_elem? cs j ≡ some d → test d ≡ false)
      → find test cs ≡ some (i, c)
  unfolding find
  find-only test [] i c e h others = absurd (ground arith)
  find-only test (d ∷ cs) zero c e h others =
      let here : d ≡ c = ap (λ o. elim o as (λ x. A) [ none ↦ c | some x ↦ x ]) e in
      let passes : test d ≡ true = ap test here ∙ h in rw passes (ap (λ x. some (0, x)) here)
  find-only test (d ∷ cs) (suc i) c e h others =
      let fails = others 0 d (λ e. omega arith) refl in
      let rest =
        find-only test cs i c e h (λ j d' ne e'. others (suc j) d' (λ q. ne (omega arith)) e') in
      rw (fails, rest) refl

  pub get_elem?-bound : (cs : List A) (i : ℕ) (c : A) → get_elem? cs i ≡ some c → i < length cs
  get_elem?-bound [] i c e = absurd (ground arith)
  get_elem?-bound (x ∷ cs) zero c e = omega arith
  get_elem?-bound (x ∷ cs) (suc i) c e = omega (arith, get_elem?-bound cs i c e)

  pub get_elem?-set_self :
      (cs : List A) (i : ℕ) (c d : A) → get_elem? cs i ≡ some c → get_elem? (set cs i d) i ≡ some d
  get_elem?-set_self [] i c d e = absurd (ground arith)
  get_elem?-set_self (x ∷ cs) zero c d e = refl
  get_elem?-set_self (x ∷ cs) (suc i) c d e = get_elem?-set_self cs i c d e

  pub get_elem?-set_ne :
      (cs : List A) (i j : ℕ) (d : A) → i ≢ j → get_elem? (set cs i d) j ≡ get_elem? cs j
  get_elem?-set_ne [] i j d ne = refl
  get_elem?-set_ne (x ∷ cs) zero zero d ne = absurd (ne refl)
  get_elem?-set_ne (x ∷ cs) zero (suc j) d ne = refl
  get_elem?-set_ne (x ∷ cs) (suc i) zero d ne = refl
  get_elem?-set_ne (x ∷ cs) (suc i) (suc j) d ne = get_elem?-set_ne cs i j d (λ e. ne (ap suc e))

  pub get_elem?-set_found :
      (cs : List A) (i : ℕ) (c d : A) → get_elem? (set cs i d) i ≡ some c → d ≡ c
  get_elem?-set_found [] i c d e = absurd (ground arith)
  get_elem?-set_found (x ∷ cs) zero c d e = ap (λ o. elim o as (λ y. A) [ none ↦ d | some y ↦ y ]) e
  get_elem?-set_found (x ∷ cs) (suc i) c d e = get_elem?-set_found cs i c d e
