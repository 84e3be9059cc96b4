-- ===== src/CircularBuffer/Invariant.antt =====
-- The representation invariant of CBUSCircularBuffer and what keeps it.
use cbuspico_lib.Common.{
  ℕ, ◌+◌, ◌-◌, ◌%◌, ◌^◌, ◌≤◌, ◌<◌, ◌≡◌, refl, sym, ap, ◌∙◌, inl, inr, false, none, some, List,
  arith, ltb, ◌==◌, if◌then◌else◌, ltb→lt, lt→ltb, ==_iff, Bool-cases, length, set, length-set,
}
use cbuspico_lib.Frame.{CanFrame}
use native.Mathlib.Nat.{mod-eq_of_lt, mod-eq-sub-mod}
use cbuspico_lib.CircularBuffer.{
  stored_slots, Slot, CircularBuffer, create, used, size, store, advance, put, get, clear,
}

abbrev pub slots_of : CircularBuffer → List Slot
slots_of b = stored_slots b.buffer

pub record IsValid (b : CircularBuffer) : Type 0 where
  pub stored : b.buffer ≡ some (slots_of b)
  pub room : length (slots_of b) ≡ b.capacity
  pub positive : 0 < b.capacity
  pub small : b.capacity < 2 ^ 8
  pub tail_in : b.tail < b.capacity
  pub count_le : b.count ≤ b.capacity
  pub head_at : b.head ≡ (b.tail + b.count) % b.capacity
  pub full_when : b.full ≡ (b.count == b.capacity)
  pub marked : b.count ≤ b.high_water_mark
  pub mark_le : b.high_water_mark ≤ b.capacity

-- A position at most one lap ahead.
pub wrap : (c t n : ℕ) → t < c → n ≤ c → (t + n) % c ≡ (if ltb (t + n) c then t + n else t + n - c)
wrap c t n ht hn = elim (Bool-cases (ltb (t + n) c)) [
  | inl e ↦ rw e (mod-eq_of_lt (ltb→lt _ _ e))
  | inr e ↦ rw e (
      mod-eq-sub-mod {n = t + n} {m = c} (ground arith)
      ∙ mod-eq_of_lt {n = t + n - c} {m = c} (ground arith))
]

-- `size` recomputes the number of stored frames from the positions and the flag.
pub used-eq-count : {b : CircularBuffer} → IsValid b → used b ≡ b.count
used-eq-count {b} v = ground (arith, wrap b.capacity b.tail b.count v.tail_in v.count_le)

-- One step round the ring.
next : (c t : ℕ) → t < c → (t + 1) % c ≡ (if t + 1 == c then 0 else t + 1)
next c t h = ground (arith, wrap c t 1 h)

-- `put` on a ring with storage.
put-some :
    {b : CircularBuffer} (now : ℕ) (item : CanFrame)
    → IsValid b
    → put b now item ≡ advance (store b (slots_of b) (record { insert_time = now; item = item }))
unfolding put
put-some now item v = rw v.stored

-- Moving the head on, once the oldest frame of a full ring has gone, adds one to the count.
pub used-advance :
    {b : CircularBuffer} (s : Slot)
    → IsValid b
    → (advance (store b (slots_of b) s)).count
      ≡ (if b.count == b.capacity then b.capacity else b.count + 1)
unfolding size
used-advance {b} s v = ground (
  arith,
  wrap b.capacity b.tail b.count v.tail_in v.count_le,
  next b.capacity b.tail v.tail_in,
  next b.capacity b.head,
)

-- Taking the oldest frame subtracts one.
pub used-get :
    {b : CircularBuffer}
    → IsValid b
    → 0 < b.count
    → used (record b { full = false; tail = (b.tail + 1) % b.capacity }) ≡ b.count - 1
used-get {b} v h =
    ground
      (arith, wrap b.capacity b.tail b.count v.tail_in v.count_le, next b.capacity b.tail v.tail_in)

-- The whole effect of `put` on a ring with storage.
pub put_lem :
    {b : CircularBuffer} (now : ℕ) (item : CanFrame)
    → IsValid b
    → let c = put b now item in
      (c.buffer ≡ some (set (slots_of b) b.head (record { insert_time = now; item = item })))
      × (c.tail ≡ (if b.count == b.capacity then (b.tail + 1) % b.capacity else b.tail))
      × (c.head ≡ (b.head + 1) % b.capacity)
      × (c.count ≡ (if b.count == b.capacity then b.capacity else b.count + 1))
      × (c.full ≡ (c.head == c.tail))
      × (c.capacity ≡ b.capacity)
      × (c.high_water_mark ≡ (if ltb b.high_water_mark c.count then c.count else b.high_water_mark))
unfolding put
put_lem {b} now item v =
    let step = used-advance {b = b} (record { insert_time = now; item = item }) v in
    rw v.stored (ground (arith, step))

pub get_lem :
    {b : CircularBuffer}
    → IsValid b
    → 0 < b.count
    → let c = (get b).0 in
      ((get b).1 ≡ some b.tail)
      × (c.buffer ≡ b.buffer)
      × (c.tail ≡ (b.tail + 1) % b.capacity)
      × (c.head ≡ b.head)
      × (c.count ≡ b.count - 1)
      × (c.full ≡ false)
      × (c.capacity ≡ b.capacity)
      × (c.high_water_mark ≡ b.high_water_mark)
unfolding get
get_lem {b} v h = ground (arith, used-get {b = b} v h)

-- The positions after `put` and after `get`, as numbers.
put_positions :
    (c t n : ℕ)
    → t < c
    → n ≤ c
    → let h' = ((t + n) % c + 1) % c in
      let t' = if n == c then (t + 1) % c else t in
      let n' = if n == c then c else n + 1 in
      (h' ≡ (t' + n') % c) × ((h' == t') ≡ (n' == c)) × (t' < c) × (n' ≤ c)
put_positions c t n ht hn = elim (Bool-cases (n == c)) [
  | inl e ↦
      rw e (
        ground (arith, wrap c t n ht hn, next c t ht, next c ((t + n) % c), wrap c ((t + 1) % c) c))
  | inr e ↦ rw e (ground (arith, wrap c t n ht hn, next c ((t + n) % c), wrap c t (n + 1)))
]

get_positions :
    (c t n : ℕ)
    → t < c
    → n ≤ c
    → 0 < n
    → ((t + n) % c ≡ ((t + 1) % c + (n - 1)) % c) × ((t + 1) % c < c)
get_positions c t n ht hn h =
    ground (arith, wrap c t n ht hn, next c t ht, wrap c ((t + 1) % c) (n - 1))

-- `put` keeps the invariant.
pub put-IsValid :
    {b : CircularBuffer} (now : ℕ) (item : CanFrame) → IsValid b → IsValid (put b now item)
put-IsValid {b} now item v =
    let (buf, tl, hd, ct, fl, cap, mark) = put_lem now item v in
    let (h_eq, f_eq, t_lt, n_le) = put_positions b.capacity b.tail b.count v.tail_in v.count_le in
    let same_room = length-set (slots_of b) b.head (record { insert_time = now; item = item }) in
    record {
      stored = rw buf;
      room = rw (buf, cap) (same_room ∙ v.room);
      positive = rw cap v.positive;
      small = rw cap v.small;
      tail_in = rw (cap, tl) t_lt;
      count_le = rw (cap, ct) n_le;
      head_at = rw (cap, hd, tl, ct, v.head_at) h_eq;
      full_when = rw (fl, hd, tl, cap, ct, v.head_at) f_eq;
      marked = ground arith;
      mark_le = ground (arith, v.mark_le);
    }

pub get-none : {b : CircularBuffer} → IsValid b → b.count ≡ 0 → get b ≡ (b, none)
unfolding get
get-none v e = rw (v.stored, e)

get-IsValid_some : {b : CircularBuffer} → IsValid b → 0 < b.count → IsValid (get b).0
get-IsValid_some {b} v h =
    let (_, buf, tl, hd, ct, fl, cap, mark) = get_lem v h in
    let (h_eq, t_lt) = get_positions b.capacity b.tail b.count v.tail_in v.count_le h in
    let kept = ap stored_slots buf in
    record {
      stored = buf ∙ v.stored ∙ ap some (sym kept);
      room = rw (kept, cap) v.room;
      positive = rw cap v.positive;
      small = rw cap v.small;
      tail_in = rw (cap, tl) t_lt;
      count_le = ground (arith, v.count_le);
      head_at = rw (cap, hd, tl, ct, v.head_at) h_eq;
      full_when = ground (arith, v.count_le);
      marked = ground (arith, v.marked);
      mark_le = rw (mark, cap) v.mark_le;
    }

-- `get` keeps the invariant.
pub get-IsValid : {b : CircularBuffer} → IsValid b → IsValid (get b).0
get-IsValid {b} v = elim (Bool-cases (b.count == 0)) [
  | inl e ↦ rw (get-none v ((==_iff _ _).0 e)) v
  | inr e ↦ get-IsValid_some v (ground arith)
]

-- `clear` keeps the invariant and empties the ring.
pub clear-IsValid : {b : CircularBuffer} → IsValid b → IsValid (clear b)
unfolding clear
clear-IsValid {b} v = record {
  stored = v.stored;
  room = v.room;
  positive = v.positive;
  small = v.small;
  tail_in = v.positive;
  count_le = omega arith;
  head_at = sym (mod-eq_of_lt v.positive);
  full_when = ground (arith, v.positive);
  marked = omega arith;
  mark_le = v.mark_le;
}

-- A new ring is valid, if it was asked for 1 to 255 slots and the allocation gave them.
pub create-IsValid :
    (n : ℕ) (slots : List Slot)
    → 0 < n
    → n < 2 ^ 8
    → length slots ≡ n
    → IsValid (create n (some slots))
unfolding create
create-IsValid n slots h small e = rw (lt→ltb _ _ h) (record {
  stored = refl;
  room = e;
  positive = h;
  small = small;
  tail_in = h;
  count_le = omega arith;
  head_at = sym (mod-eq_of_lt h);
  full_when = ground arith;
  marked = omega arith;
  mark_le = omega arith;
})
