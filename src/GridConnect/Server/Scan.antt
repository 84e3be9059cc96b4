-- ===== src/GridConnect/Server/Scan.antt =====
-- What the server's extraction of Grid Connect messages from a TCP stream should do, one character at a time.
use cbuspico_lib.Common.{
  ℕ, suc, ◌≤◌, ◌<◌, ◌≡◌, refl, sym, ap, ◌∙◌, subst, ◌⊎◌, inl, inr, none, some, List, [], ◌∷◌, ◌++◌,
  append-nil, append_assoc, arith, ◌==◌, if◌then◌else◌, ==_iff, Bool-cases, length, take, drop,
  length-append,
}
use cbuspico_lib.GridConnect.Codec.{gc_max_msg}
use cbuspico_lib.GridConnect.Server.Index.{
  index, index-miss_none, index-miss_some, index-hit_some, index-hit_none, index-nil, index-append,
  index-snoc,
}

-- The open text, empty outside a message, and the messages that were closed.
abbrev pub Scanned : Type 0
Scanned = List ℕ × List (List ℕ)

-- The open text after one more character.
abbrev pub opened : List ℕ → ℕ → List ℕ
opened [] x = if x == b':' then x ∷ [] else []
opened (c ∷ q) x = if x == b';' then [] else (c ∷ q) ++ x ∷ []

-- The message that a character closes.
abbrev pub closed : List ℕ → ℕ → List (List ℕ)
closed [] x = []
closed (c ∷ q) x = if x == b';' then ((c ∷ q) ++ x ∷ []) ∷ [] else []

unfoldable pub scan : List ℕ → List ℕ → Scanned
scan q [] = (q, [])
scan q (x ∷ xs) = let (rest, ms) = scan (opened q x) xs in (rest, closed q x ++ ms)

-- No open text and no message is ever longer than a message may be.
unfoldable pub Fits : List ℕ → List ℕ → Type 0
Fits q [] = length q ≤ gc_max_msg
Fits q (x ∷ xs) = (length q < gc_max_msg) × Fits (opened q x) xs

pub scan-append :
    (q xs ys : List ℕ)
    → scan q (xs ++ ys) ≡ ((scan (scan q xs).0 ys).0, (scan q xs).1 ++ (scan (scan q xs).0 ys).1)
unfolding scan
scan-append q [] ys = refl
scan-append q (x ∷ xs) ys =
    ap (λ r. (r.0, closed q x ++ r.1)) (scan-append (opened q x) xs ys)
    ∙ ap (λ ms. ((scan (scan (opened q x) xs).0 ys).0, ms))
        (sym
          (append_assoc (closed q x) (scan (opened q x) xs).1 (scan (scan (opened q x) xs).0 ys).1))

pub Fits-length : (q xs : List ℕ) → Fits q xs → length q ≤ gc_max_msg
unfolding Fits
Fits-length q [] h = h
Fits-length q (x ∷ xs) (l, h) = omega arith

pub Fits-append : (q xs ys : List ℕ) → Fits q (xs ++ ys) → Fits q xs × Fits (scan q xs).0 ys
unfolding scan Fits
Fits-append q [] ys h = (Fits-length q ys h, h)
Fits-append q (x ∷ xs) ys (l, h) = let (a, b) = Fits-append (opened q x) xs ys h in ((l, a), b)

pub Fits-join : (q xs ys : List ℕ) → Fits q xs → Fits (scan q xs).0 ys → Fits q (xs ++ ys)
unfolding scan Fits
Fits-join q [] ys h h' = h'
Fits-join q (x ∷ xs) ys (l, h) h' = (l, Fits-join (opened q x) xs ys h h')

-- Outside a message, without a start.
pub scan-none : (xs : List ℕ) → index b':' xs ≡ none → scan [] xs ≡ ([], [])
unfolding scan
scan-none [] h = refl
scan-none (x ∷ xs) h = elim (Bool-cases (x == b':')) [
  | inl e ↦ index-hit_none b':' x xs e h
  | inr n ↦ rw n (rw (scan-none xs (index-miss_none b':' x xs n h)) refl)
]

-- The characters before a start are passed over.
abbrev pub OpensAt : List ℕ → ℕ → Type 0
OpensAt xs i =
    (scan [] xs ≡ scan (b':' ∷ []) (drop (suc i) xs))
    × (Fits [] xs → Fits (b':' ∷ []) (drop (suc i) xs))

pub scan-OpensAt : (xs : List ℕ) (i : ℕ) → index b':' xs ≡ some i → OpensAt xs i
unfolding scan Fits
scan-OpensAt [] i h = index-nil b':' i h
scan-OpensAt (x ∷ xs) i h = elim (Bool-cases (x == b':')) [
  | inl e ↦
      subst (λ y. OpensAt (y ∷ xs) i) (sym ((==_iff x b':').0 e))
        (subst (λ k. OpensAt (b':' ∷ xs) k) (sym (index-hit_some b':' x xs i e h))
          (refl, λ (l, fits). fits))
  | inr n ↦
      let (j, ej, h') = index-miss_some b':' x xs i n h in
      let (a, f) = scan-OpensAt xs j h' in
      subst (λ k. OpensAt (x ∷ xs) k) (sym ej) (rw n (a, λ (l, fits). f fits))
]

-- An open text without an end stays open.
abbrev pub StaysOpen : List ℕ → List ℕ → List ℕ → Type 0
StaysOpen q xs all = (scan q xs ≡ (all, [])) × (Fits q xs → length all ≤ gc_max_msg)

pub scan-StaysOpen :
    (c : ℕ) (q xs : List ℕ) → index b';' xs ≡ none → StaysOpen (c ∷ q) xs ((c ∷ q) ++ xs)
unfolding scan Fits
scan-StaysOpen c q [] h =
    subst (λ all. StaysOpen (c ∷ q) [] (c ∷ all)) (sym (append-nil q)) (refl, λ fits. fits)
scan-StaysOpen c q (x ∷ xs) h = elim (Bool-cases (x == b';')) [
  | inl e ↦ index-hit_none b';' x xs e h
  | inr n ↦
      let (a, f) = scan-StaysOpen c (q ++ x ∷ []) xs (index-miss_none b';' x xs n h) in
      subst (λ all. StaysOpen (c ∷ q) (x ∷ xs) (c ∷ all)) (append_assoc q (x ∷ []) xs)
        (rw n (a, λ (l, fits). f fits))
]

-- An open text is closed by the first end.
abbrev pub ClosesAt : List ℕ → List ℕ → ℕ → List ℕ → Type 0
ClosesAt q xs i m =
    (scan q xs ≡ ((scan [] (drop (suc i) xs)).0, m ∷ (scan [] (drop (suc i) xs)).1))
    × (Fits q xs → (length m ≤ gc_max_msg) × Fits [] (drop (suc i) xs))

pub scan-ClosesAt :
    (c : ℕ) (q xs : List ℕ) (i : ℕ)
    → index b';' xs ≡ some i
    → ClosesAt (c ∷ q) xs i ((c ∷ q) ++ take (suc i) xs)
unfolding scan Fits
scan-ClosesAt c q [] i h = index-nil b';' i h
scan-ClosesAt c q (x ∷ xs) i h = elim (Bool-cases (x == b';')) [
  | inl e ↦
      subst (λ y. ClosesAt (c ∷ q) (y ∷ xs) i ((c ∷ q) ++ take (suc i) (y ∷ xs)))
        (sym ((==_iff x b';').0 e))
        (subst (λ k. ClosesAt (c ∷ q) (b';' ∷ xs) k ((c ∷ q) ++ take (suc k) (b';' ∷ xs)))
          (sym (index-hit_some b';' x xs i e h))
          (refl, λ (l, fits). (omega (arith, length-append q (b';' ∷ [])), fits)))
  | inr n ↦
      let (j, ej, h') = index-miss_some b';' x xs i n h in
      let (a, f) = scan-ClosesAt c (q ++ x ∷ []) xs j h' in
      subst (λ k. ClosesAt (c ∷ q) (x ∷ xs) k ((c ∷ q) ++ take (suc k) (x ∷ xs))) (sym ej)
        (subst (λ m. ClosesAt (c ∷ q) (x ∷ xs) (suc j) (c ∷ m))
          (append_assoc q (x ∷ []) (take (suc j) xs)) (rw n (a, λ (l, fits). f fits)))
]

-- A text that may be open: nothing, or a start with no end behind it.
pub data IsOpen : List ℕ → Type 0 where
  shut : IsOpen []
  started : (q : List ℕ) → index b';' q ≡ none → IsOpen (b':' ∷ q)

opened-IsOpen : (q : List ℕ) (x : ℕ) → IsOpen q → IsOpen (opened q x)
unfolding index
opened-IsOpen _ x shut = elim (Bool-cases (x == b':')) [
  | inl e ↦
      subst (λ b. IsOpen (if b then x ∷ [] else [])) (sym e)
        (subst (λ y. IsOpen (y ∷ [])) (sym ((==_iff x b':').0 e)) (started [] refl))
  | inr n ↦ subst (λ b. IsOpen (if b then x ∷ [] else [])) (sym n) shut
]
opened-IsOpen _ x (started q h) = elim (Bool-cases (x == b';')) [
  | inl e ↦ rw e shut
  | inr n ↦ rw n (started (q ++ x ∷ []) (index-snoc b';' q x h n))
]

pub scan-IsOpen : (q xs : List ℕ) → IsOpen q → IsOpen (scan q xs).0
unfolding scan
scan-IsOpen q [] o = o
scan-IsOpen q (x ∷ xs) o = scan-IsOpen (opened q x) xs (opened-IsOpen q x o)

-- An open text, read again, is open as it was.
scan-again : (q : List ℕ) → IsOpen q → scan [] q ≡ (q, [])
unfolding scan
scan-again _ shut = refl
scan-again _ (started q h) = (scan-StaysOpen b':' [] q h).0

-- Where a text that begins with an open one has its first start, the open one lies.
pub IsOpen-none : (q c xs : List ℕ) → IsOpen q → xs ≡ q ++ c → index b':' xs ≡ none → q ≡ []
IsOpen-none _ c xs shut e h = refl
IsOpen-none _ c xs (started q n) e h =
    index-hit_none b':' b':' (q ++ c) refl (ap (index b':') (sym e) ∙ h)

IsOpen-some :
    (q c xs : List ℕ) (i : ℕ)
    → IsOpen q
    → xs ≡ q ++ c
    → index b':' xs ≡ some i
    → (q ≡ [])
      ⊎ ((q' : List ℕ) × (q ≡ b':' ∷ q') × (index b';' q' ≡ none) × (drop (suc i) xs ≡ q' ++ c))
IsOpen-some _ c xs i shut e h = inl refl
IsOpen-some _ c xs i (started q n) e h =
    let here : i ≡ 0 = index-hit_some b':' b':' (q ++ c) i refl (ap (index b':') (sym e) ∙ h) in
    inr (q, refl, n, ap (λ k. drop (suc k) xs) here ∙ ap (drop 1) e)

-- An open text is no longer than the message that it begins.
pub IsOpen-length :
    (q c xs : List ℕ) (i j : ℕ)
    → IsOpen q
    → xs ≡ q ++ c
    → index b':' xs ≡ some i
    → index b';' (drop (suc i) xs) ≡ some j
    → length q ≤ suc j
IsOpen-length q c xs i j o e h g = elim (IsOpen-some q c xs i o e h) [
  | inl z ↦ omega (arith, ap (length {A = ℕ}) z)
  | inr (q', z, n, d) ↦
      let l = index-append b';' q' c j n (ap (index b';') (sym d) ∙ g) in
      omega (arith, ap (length {A = ℕ}) z)
]

pub IsOpen-length_all :
    (q c xs : List ℕ) (i : ℕ)
    → IsOpen q
    → xs ≡ q ++ c
    → index b':' xs ≡ some i
    → length q ≤ suc (length (drop (suc i) xs))
IsOpen-length_all q c xs i o e h = elim (IsOpen-some q c xs i o e h) [
  | inl z ↦ omega (arith, ap (length {A = ℕ}) z)
  | inr (q', z, n, d) ↦
      omega (arith, ap (length {A = ℕ}) z, ap (length {A = ℕ}) d, length-append q' c)
]

-- Reading an open text again and going on is going on.
pub scan-continue : (q xs : List ℕ) → IsOpen q → scan [] (q ++ xs) ≡ scan q xs
scan-continue q xs o =
    scan-append [] q xs ∙ ap (λ r. ((scan r.0 xs).0, r.1 ++ (scan r.0 xs).1)) (scan-again q o)

Fits-more :
    (c : ℕ) (r q xs : List ℕ)
    → index b';' q ≡ none
    → Fits ((c ∷ r) ++ q) xs
    → Fits (c ∷ r) (q ++ xs)
unfolding Fits
Fits-more c r [] xs n fits = subst (λ z. Fits (c ∷ z) xs) (append-nil r) fits
Fits-more c r (x ∷ q) xs n fits = elim (Bool-cases (x == b';')) [
  | inl e ↦ index-hit_none b';' x q e n
  | inr m ↦
      let l = Fits-length (c ∷ (r ++ x ∷ q)) xs fits in
      (
        omega (arith, length-append r (x ∷ q)),
        rw m (
            Fits-more c (r ++ x ∷ []) q xs (index-miss_none b';' x q m n)
              (subst (λ z. Fits (c ∷ z) xs) (sym (append_assoc r (x ∷ []) q)) fits)),
      )
]

pub Fits-again : (q xs : List ℕ) → IsOpen q → Fits q xs → Fits [] (q ++ xs)
unfolding Fits
Fits-again _ xs shut fits = fits
Fits-again _ xs (started q n) fits = (omega arith, Fits-more b':' [] q xs n fits)
