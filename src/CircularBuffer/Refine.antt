-- ===== src/CircularBuffer/Refine.antt =====
-- A valid ring is the overwriting queue of the frames that it holds.
use cbuspico_lib.Common.{
  ℕ, zero, suc, ◌+◌, ◌-◌, ◌%◌, ◌≤◌, ◌<◌, ◌≡◌, refl, ap, ap₂, ◌∙◌, subst, ◌≢◌, inl, inr, List, [],
  ◌∷◌, ◌++◌, arith, ◌==◌, if◌then◌else◌, ==_iff, Bool-cases, length, get_or, set, get_or-set_self,
  get_or-set_ne,
}
use native.Mathlib.Numerals.{add-one}
use native.Mathlib.Nat.{mod-eq_of_lt, mod-add-mod, add-zero}
use mathlib.Core.Option
use cbuspico_lib.Frame.{CanFrame}
use cbuspico_lib.CircularBuffer.{Slot, CircularBuffer, no_slot, put, get, deref}
use cbuspico_lib.CircularBuffer.Queue
use cbuspico_lib.CircularBuffer.Queue.{Queue, Call, puts, gets, clears}
use cbuspico_lib.CircularBuffer.Invariant.{IsValid, slots_of, wrap, put_lem, get_lem, get-none}

-- The `n` slots from index `t` on, going round at `capacity`.
module _ (slots : List Slot) (capacity : ℕ) where
  abbrev pub lap : ℕ → ℕ → Queue
  lap t zero = []
  lap t (suc n) = get_or slots t no_slot ∷ lap ((t + 1) % capacity) n

  pub length-lap : (t n : ℕ) → length (lap t n) ≡ n
  length-lap t zero = refl
  length-lap t (suc n) = ap suc (length-lap ((t + 1) % capacity) n)

  lap_pos : (t n : ℕ) → 0 < n → lap t n ≡ get_or slots t no_slot ∷ lap ((t + 1) % capacity) (n - 1)
  lap_pos t zero h = absurd (omega arith)
  lap_pos t (suc n) h = ap (λ k. get_or slots t no_slot ∷ lap ((t + 1) % capacity) k) (omega arith)

abbrev pub contents : CircularBuffer → Queue
contents b = lap (slots_of b) b.capacity b.tail b.count

-- Fewer steps than a whole lap do not come back to the start.
off_start : (c t k : ℕ) → t < c → suc k < c → (t + suc k) % c ≢ t
off_start c t k ht hk = ground (arith, wrap c t (suc k) ht)

shift : (c t k : ℕ) → (t + suc k) % c ≡ ((t + 1) % c + k) % c
shift c t k = rw mod-add-mod (ap (λ n. n % c) (omega arith))

-- Writing the slot behind a lap of fewer than `capacity` slots appends it.
lap-set :
    (slots : List Slot) (c : ℕ) (s : Slot) (n t i : ℕ)
    → i ≡ (t + n) % c
    → length slots ≡ c
    → t < c
    → n < c
    → lap (set slots i s) c t (suc n) ≡ lap slots c t n ++ s ∷ []
lap-set slots c s zero t i at e ht hn =
    rw (at, add-zero, mod-eq_of_lt ht, get_or-set_self slots t s no_slot (omega arith))
lap-set slots c s (suc n) t i at e ht hn =
    let elsewhere : i ≢ t = rw at (off_start c t n ht hn) in
    ap₂ ◌∷◌ (get_or-set_ne slots i t s no_slot elsewhere)
      (lap-set slots c s n ((t + 1) % c) i (at ∙ shift c t n) e (omega arith) (omega arith))

lap_put :
    (slots : List Slot) (c : ℕ) (s : Slot) (t n : ℕ)
    → length slots ≡ c
    → t < c
    → n ≤ c
    → lap
        (set slots ((t + n) % c) s)
        c
        (if n == c then (t + 1) % c else t)
        (if n == c then c else n + 1)
      ≡ Queue.push c (lap slots c t n) s
unfolding Queue.push
lap_put slots c s t n e ht hn = rw (length-lap slots c t n) (elim (Bool-cases (n == c)) [
  | inl full ↦
      rw (full, lap_pos slots c t n (ground arith))
        (let step =
            lap-set slots c s (c - 1) ((t + 1) % c) ((t + n) % c)
              (ground (arith, wrap c t n ht hn, wrap c t 1, wrap c ((t + 1) % c) (c - 1))) e
              (omega arith) (omega arith) in
          let same_rest : n - 1 ≡ c - 1 = ground arith in
          rw same_rest (
            subst
              (λ k.
                lap (set slots ((t + n) % c) s) c ((t + 1) % c) k
                ≡ lap slots c ((t + 1) % c) (c - 1) ++ s ∷ [])
              {x = suc (c - 1)} {y = c} (omega arith) step))
  | inr less ↦ rw (less, add-one) (lap-set slots c s n t ((t + n) % c) refl e ht (ground arith))
])

-- `put` gives the queue the frame, and drops the oldest one exactly when the ring was full.
pub put_refines :
    {b : CircularBuffer} (now : ℕ) (item : CanFrame)
    → IsValid b
    → contents (put b now item)
      ≡ Queue.push b.capacity (contents b) (record { insert_time = now; item = item })
put_refines {b} now item v =
    let s : Slot = record { insert_time = now; item = item } in
    let (buf, tl, hd, ct, fl, cap, mark) = put_lem now item v in
    rw (buf, tl, ct, cap, v.head_at)
      (lap_put (slots_of b) b.capacity s b.tail b.count v.room v.tail_in v.count_le)

-- The slot that `get` points to holds the oldest frame, and the rest stays.
pub get_refines :
    {b : CircularBuffer}
    → IsValid b
    → let (c, p) = get b in (Option.map (deref c) p, contents c) ≡ Queue.pop (contents b)
unfolding Queue.pop deref
get_refines {b} v = elim (Bool-cases (b.count == 0)) [
  | inl e ↦ let zero_count = (==_iff b.count 0).0 e in rw (get-none v zero_count, zero_count) refl
  | inr e ↦
      let pos : 0 < b.count = ground arith in
      let (p, buf, tl, hd, ct, fl, cap, mark) = get_lem v pos in
      rw (p, buf, tl, ct, cap, lap_pos (slots_of b) b.capacity b.tail b.count pos) refl
]
