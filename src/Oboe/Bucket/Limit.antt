-- ===== src/Oboe/Bucket/Limit.antt =====
-- The rate limit of a bucket whose numbers are fixed-point numbers that round down: how many tokens it hands out in a window of
-- time. The float64 of the program rounds to the nearest instead.
use apm_go.Prelude.{
  ℕ, suc, ◌+◌, ◌-◌, ◌*◌, ◌/◌, ◌≤◌, List, [], ◌∷◌, ◌≡◌, true, false, arith, inl, inr, if◌then◌else◌,
  Bool-cases, leb,
}
use apm_go.Prelude.Int.{ℤ, pos, negsuc, pos_part, ltb_ℤ, ◌+ℤ◌, ◌*ℤ◌, -ℤ_parts}
use apm_go.Float.{IsNonneg}
use apm_go.Float.Exact.{units, exact, exact-FloatLaws, mul_exact}
use apm_go.Oboe.Time.{sub_time, max_duration}
use apm_go.Oboe.Bucket.{TokenBucket, update, consume}
use apm_go.Oboe.Bucket.Bounds.{IsValid, update-IsValid, consume-IsValid}

sub_time_lem : (t u : ℕ) → u ≤ t → (d : ℕ) × (sub_time t u ≡ pos d) × (d ≤ t - u)
unfolding sub_time
sub_time_lem t u h = elim (Bool-cases (leb (t - u) max_duration)) [
  | inl e ↦ (t - u, ground arith, omega arith)
  | inr e ↦ (max_duration, ground arith, ground arith)
]

-- What a refill of `d` nanoseconds adds.
refill-le :
    (a rate : ℤ) (d : ℕ)
    → IsNonneg a
    → IsNonneg rate
    → pos_part (a +ℤ mul_exact rate (pos d)) ≤ pos_part a + pos_part rate * d / units
unfolding ◌+ℤ◌ ◌*ℤ◌
refill-le (pos a) (pos r) d h k = ground arith
refill-le (pos a) (negsuc r) d h k = ground arith
refill-le (negsuc a) r d h k = ground arith

abbrev budget : ℕ → TokenBucket ℤ → ℕ
budget end b = pos_part b.available * units + pos_part b.rate_per_sec * (end - b.last)

split_product : (r x y z : ℕ) → x ≤ y → y ≤ z → r * (z - x) ≡ r * (y - x) + r * (z - y)
split_product r x y z h k = let e : z - x ≡ (y - x) + (z - y) = omega arith in rw e (omega arith)

mono_product : (r d e : ℕ) → d ≤ e → r * d ≤ r * e
mono_product r d e h = grind arith

update-budget :
    (now end : ℕ) (b : TokenBucket ℤ)
    → IsValid b
    → b.last ≤ now
    → now ≤ end
    → (budget end (update now b) ≤ budget end b)
      × (b.last ≤ (update now b).last)
      × ((update now b).last ≤ now)
      × ((update now b).rate_per_sec ≡ b.rate_per_sec)
      × ((update now b).capacity ≡ b.capacity)
unfolding update
update-budget now end b v h k =
    let (d, e, fits) = sub_time_lem now b.last h in
    let r = pos_part b.rate_per_sec in
    let s = split_product r b.last now end h k in
    let m = mono_product r d (now - b.last) fits in
    ground (arith, e, refill-le b.available b.rate_per_sec d v.available_nonneg v.rate_nonneg, s, m)

-- The number of tokens handed out to calls at the given times.
pub granted : List ℕ → TokenBucket ℤ → ℕ
granted [] b = 0
granted (now ∷ times) b =
    let (b', took) = consume now (pos units) b in
    let rest = granted times b' in if took then suc rest else rest

-- Times that do not fall, from `start` to `end`.
abbrev pub Within : ℕ → ℕ → List ℕ → Type 0
Within start end [] = start ≤ end
Within start end (now ∷ times) = (start ≤ now) × Within now end times

start-le-end : (start end : ℕ) (times : List ℕ) → Within start end times → start ≤ end
start-le-end start end [] h = h
start-le-end start end (now ∷ times) h = omega (arith, start-le-end now end times h.1)

-- One call: what it hands out and what it leaves are paid from the budget after the refill.
consume-paid :
    (now end : ℕ) (b : TokenBucket ℤ)
    → IsValid b
    → let (b', took) = consume now (pos units) b in
      let u = update now b in
      ((if took then units * units else 0) + budget end b' ≤ budget end u)
      × (b'.last ≡ u.last)
      × (b'.rate_per_sec ≡ u.rate_per_sec)
      × (b'.capacity ≡ u.capacity)
unfolding consume
consume-paid now end b v =
    let u = update now b in
    let w = update-IsValid exact-FloatLaws now b v in
    ground (arith, w, -ℤ_parts u.available (pos units))

granted-budget :
    (times : List ℕ) (start end : ℕ) (b : TokenBucket ℤ)
    → IsValid b
    → b.last ≤ start
    → Within start end times
    → granted times b * (units * units) ≤ budget end b
unfolding granted
granted-budget [] start end b v l h = omega arith
granted-budget (now ∷ times) start end b v l h =
    let c = consume now (pos units) b in
    let k = start-le-end now end times h.1 in
    let q = update-budget now end b v (omega arith) k in
    let p = consume-paid now end b v in
    let ih =
      granted-budget times now end c.0 (consume-IsValid exact-FloatLaws now b v) (omega arith)
        h.1 in
    ground (arith, p, q, ih)

-- What a window of time allows: the capacity, and what the rate makes in the window.
abbrev pub allowance : ℕ → TokenBucket ℤ → ℕ
allowance span b = pos_part b.capacity * units + pos_part b.rate_per_sec * span

-- A bucket with room counts time from the call on.
update_room :
    (now : ℕ) (b : TokenBucket ℤ)
    → ltb_ℤ b.available b.capacity ≡ true
    → ((update now b).last ≡ now)
      × ((update now b).rate_per_sec ≡ b.rate_per_sec)
      × ((update now b).capacity ≡ b.capacity)
unfolding update
update_room now b room = ground arith

update-allowance :
    (now end : ℕ) (b : TokenBucket ℤ)
    → IsValid b
    → ltb_ℤ b.available b.capacity ≡ true
    → budget end (update now b) ≤ allowance (end - now) b
update-allowance now end b v room =
    let u = update now b in
    let w = update-IsValid exact-FloatLaws now b v in
    let (l, r, c) = update_room now b room in
    let fits : pos_part u.available ≤ pos_part b.capacity = ground (arith, w, c) in
    rw (l, r) (omega arith)

granted_room :
    (times : List ℕ) (start end : ℕ) (b : TokenBucket ℤ)
    → IsValid b
    → b.last ≤ start
    → Within start end times
    → ltb_ℤ b.available b.capacity ≡ true
    → granted times b * (units * units) ≤ allowance (end - start) b
unfolding granted
granted_room [] start end b v l h room = omega arith
granted_room (now ∷ times) start end b v l h room =
    let c = consume now (pos units) b in
    let k = start-le-end now end times h.1 in
    let q = update-allowance now end b v room in
    let p = consume-paid now end b v in
    let m = mono_product (pos_part b.rate_per_sec) (end - now) (end - start) (omega arith) in
    let u = update_room now b room in
    let ih =
      granted-budget times now end c.0 (consume-IsValid exact-FloatLaws now b v) (ground arith)
        h.1 in
    ground (arith, p, q, m, ih)

-- A full bucket is not refilled: it hands out a token, and has room then, or stays as it is.
consume_full :
    (now : ℕ) (b : TokenBucket ℤ)
    → IsValid b
    → ltb_ℤ b.available b.capacity ≡ false
    → let (b', took) = consume now (pos units) b in
      (if took then ltb_ℤ b'.available b'.capacity ≡ true else b' ≡ b)
      × (b'.last ≡ b.last)
      × (b'.rate_per_sec ≡ b.rate_per_sec)
      × (b'.capacity ≡ b.capacity)
unfolding consume update
consume_full now b v full = ground (arith, -ℤ_parts b.available (pos units))

-- In exact fixed-point arithmetic that rounds down, a valid bucket that was last refilled by the start of a window hands out,
-- however the calls fall in it, in the order of their times, at most its capacity, what its rate makes in the window, and
-- one token more: a full bucket does not note the time of the call that takes
-- its first token. Of the program's float64, which rounds to the nearest and can round up, this is not said.
pub granted_window :
    (times : List ℕ) (start end : ℕ) (b : TokenBucket ℤ)
    → IsValid b
    → b.last ≤ start
    → Within start end times
    → granted times b * (units * units) ≤ units * units + allowance (end - start) b
unfolding granted
granted_window [] start end b v l h = omega arith
granted_window (now ∷ times) start end b v l h = elim (Bool-cases (ltb_ℤ b.available b.capacity)) [
  | inl room ↦ omega (arith, granted_room (now ∷ times) start end b v l h room)
  | inr full ↦
      let c = consume now (pos units) b in
      let f = consume_full now b v full in
      let w = consume-IsValid exact-FloatLaws now b v in
      let k = start-le-end now end times h.1 in
      let m = mono_product (pos_part b.rate_per_sec) (end - now) (end - start) (omega arith) in
      ground (
        arith,
        f,
        m,
        granted_window times now end c.0 w (omega arith) h.1,
        λ (room : ltb_ℤ c.0.available c.0.capacity ≡ true).
            granted_room times now end c.0 w (omega arith) h.1 room,
      )
]
