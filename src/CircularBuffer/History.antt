-- ===== src/CircularBuffer/History.antt =====
-- Sequences of calls of CBUSCircularBuffer: the ring against the queue, the counters, and the
-- pointer that `get` hands out.
use cbuspico_lib.Common.{
  ℕ, ◌+◌, ◌%◌, ◌≤◌, ◌<◌, ◌≡◌, refl, sym, ap, ap₂, ◌∙◌, Option, none, some, List, [], ◌∷◌, arith,
  ◌==◌, if◌then◌else◌, get_or, get_or-set, u32,
}
use mathlib.Core.Option
use cbuspico_lib.Frame.{CanFrame}
use cbuspico_lib.CircularBuffer.{Slot, CircularBuffer, no_slot, put, get, clear, deref}
use cbuspico_lib.CircularBuffer.Queue
use cbuspico_lib.CircularBuffer.Queue.{Queue, Call, puts, gets, clears}
use cbuspico_lib.CircularBuffer.Invariant.{
  IsValid, slots_of, wrap, put_lem, get_lem, put-IsValid, get-IsValid, clear-IsValid, used-advance,
  used-get,
}
use cbuspico_lib.CircularBuffer.Refine.{contents, put_refines, get_refines}

-- The calls in order, with what `get` shows of the ring at each.
unfoldable pub run : CircularBuffer → List Call → List (Option Slot)
run b [] = []
run b (puts now item ∷ cs) = none ∷ run (put b now item) cs
run b (gets ∷ cs) = let (b', p) = get b in Option.map (deref b') p ∷ run b' cs
run b (clears ∷ cs) = none ∷ run (clear b) cs

capacity-get : {b : CircularBuffer} → IsValid b → (get b).0.capacity ≡ b.capacity
unfolding get
capacity-get v = ground arith

capacity-put :
    {b : CircularBuffer} (now : ℕ) (item : CanFrame)
    → IsValid b
    → (put b now item).capacity ≡ b.capacity
capacity-put now item v = (put_lem now item v).5

contents-clear : (b : CircularBuffer) → contents (clear b) ≡ []
unfolding clear
contents-clear b = refl

capacity-clear : (b : CircularBuffer) → (clear b).capacity ≡ b.capacity
unfolding clear
capacity-clear b = refl

-- No sequence of calls of `put`, `get` and `clear` on a valid ring tells it from the queue of its
-- contents that gives up its oldest frame when full.
pub run_refines :
    (cs : List Call) {b : CircularBuffer}
    → IsValid b
    → run b cs ≡ Queue.run b.capacity (contents b) cs
unfolding run Queue.run
run_refines [] v = refl
run_refines (puts now item ∷ cs) v = ap (◌∷◌ none) (
    run_refines cs (put-IsValid now item v)
    ∙ ap₂ (λ k q. Queue.run k q cs) (capacity-put now item v) (put_refines now item v))
run_refines (gets ∷ cs) {b} v = ap₂ ◌∷◌ (ap (λ t. t.0) (get_refines v)) (
    run_refines cs (get-IsValid v)
    ∙ ap₂ (λ k q. Queue.run k q cs) (capacity-get v) (ap (λ t. t.1) (get_refines v)))
run_refines (clears ∷ cs) {b} v = ap (◌∷◌ none) (
    run_refines cs (clear-IsValid v)
    ∙ ap₂ (λ k q. Queue.run k q cs) (capacity-clear b) (contents-clear b))

-- The counters agree with the ring, as 32-bit numbers.
abbrev pub IsBalanced : CircularBuffer → Type 0
IsBalanced b = u32 (b.gets + b.overflows + b.count) ≡ u32 b.puts

-- Every frame that was put is still stored, was handed out, or was counted as an overflow: `put`
-- keeps puts = gets + overflows + size, modulo 2 ^ 32.
pub put-IsBalanced :
    {b : CircularBuffer} (now : ℕ) (item : CanFrame)
    → IsValid b
    → IsBalanced b
    → IsBalanced (put b now item)
unfolding put
put-IsBalanced {b} now item v bal =
    let step = used-advance {b = b} (record { insert_time = now; item = item }) v in
    rw v.stored (ground (arith, step, v.full_when))

pub get-IsBalanced : {b : CircularBuffer} → IsValid b → IsBalanced b → IsBalanced (get b).0
unfolding get
get-IsBalanced {b} v bal = ground (arith, used-get {b = b} v)

-- The next free slot is the oldest one exactly when the ring is full.
head-eq-tail : (c t n : ℕ) → t < c → 0 < n → n ≤ c → ((t + n) % c == t) ≡ (n == c)
head-eq-tail c t n ht pos hn = ground (arith, wrap c t n ht hn)

deref_same : (b c : CircularBuffer) (i : ℕ) → b.buffer ≡ c.buffer → deref b i ≡ deref c i
unfolding deref
deref_same b c i e = rw e refl

slot_after :
    {b : CircularBuffer} (now : ℕ) (item : CanFrame)
    → IsValid b
    → 0 < b.count
    → deref (put (get b).0 now item) b.tail ≡ (
        if b.count == b.capacity then record { insert_time = now; item = item } else deref b b.tail)
unfolding deref
slot_after {b} now item v h =
    let (p, buf, tl, hd, ct, fl, cap, mark) = get_lem v h in
    let buf' = (put_lem now item (get-IsValid v)).0 in
    rw (buf', buf, hd, v.head_at)
      (get_or-set (slots_of b) ((b.tail + b.count) % b.capacity) b.tail
          (record { insert_time = now; item = item }) no_slot (omega (arith, v.room, v.positive))
        ∙ ap
            (λ c.
              if c
              then record { insert_time = now; item = item }
              else get_or (slots_of b) b.tail no_slot)
            (head-eq-tail b.capacity b.tail b.count v.tail_in h v.count_le))

-- On a valid ring that is not empty, `get` returns a pointer to the oldest frame of the contents. After the next `put`
-- that pointer still points to that frame if the ring was not full, and to the frame just put if it was: the
-- `put` that follows a `get` on a full ring reuses that very slot.
pub deref-put-get :
    {b : CircularBuffer} (now : ℕ) (item : CanFrame)
    → IsValid b
    → 0 < b.count
    → (i : ℕ) × ((s : Slot) × (((get b).1 ≡ some i)
          × ((Queue.pop (contents b)).0 ≡ some s)
          × (deref (get b).0 i ≡ s)
          × (deref (put (get b).0 now item) i
              ≡ (if b.count == b.capacity then record { insert_time = now; item = item } else s))))
deref-put-get {b} now item v h =
    let (p, same_buffer, tl, hd, ct, fl, cap, mark) = get_lem v h in
    let same : deref (get b).0 b.tail ≡ deref b b.tail =
      deref_same (get b).0 b b.tail same_buffer in
    (
      b.tail,
      (
        deref b b.tail,
        (
          p,
          sym (ap (λ t. t.0) (get_refines v)) ∙ ap (Option.map (deref (get b).0)) p ∙ ap some same,
          same,
          slot_after now item v h,
        ),
      ),
    )
