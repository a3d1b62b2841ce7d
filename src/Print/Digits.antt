-- ===== src/Print/Digits.antt =====
-- What `printNum` of user/lib/printf.c leaves in the buffer.
use native.Mathlib.Nat.{pow-suc, mod-lt, div-mul-le_self, mul-le-mul_left}
use riem_os.Base.{
  ℕ, zero, suc, ◌+◌, ◌-◌, ◌*◌, ◌/◌, ◌%◌, ◌^◌, ◌<◌, ◌≤◌, ◌≡◌, ◌≢◌, refl, ◌∙◌, ap, arith, Bool, ◌&&◌,
  Option, some, ltb, leb, ◌==◌, if◌then◌else◌, Bool-cases, inl, inr, ◌⊎◌,
}
use riem_os.Memory.Ram.{Bytes, store8}
use riem_os.Memory.Ram.Copy.{IsBytes, store8-IsBytes}
use riem_os.Print.{digit, put_digits, fill, swap_ends}

pub fill_lem :
    (n : ℕ) (buf : Bytes) (at c q : ℕ)
    → c < 256
    → fill n buf at c q ≡ (if leb at q && ltb q (at + n) then c else buf q)
unfolding fill store8
fill_lem zero buf at c q h = ground arith
fill_lem (suc n) buf at c q h = ground (arith, fill_lem n (store8 buf at c) (at + 1) c q h)

pub fill-IsBytes : (n : ℕ) (buf : Bytes) (at c : ℕ) → IsBytes buf → IsBytes (fill n buf at c)
unfolding fill
fill-IsBytes zero buf at c h = h
fill-IsBytes (suc n) buf at c h =
    fill-IsBytes n (store8 buf at c) (at + 1) c (store8-IsBytes buf at c h)

-- The cells from `begin` to `end` in the other order.
abbrev pub turned : Bytes → ℕ → ℕ → Bytes
turned buf begin end q = if leb begin q && leb q end then buf (begin + end - q) else buf q

turned_short : (buf : Bytes) (begin end q : ℕ) → end ≤ begin → buf q ≡ turned buf begin end q
turned_short buf begin end q h = ground (arith, middle)
  where
    middle : begin ≤ q → q ≤ end → buf (begin + end - q) ≡ buf q
    middle e f = ap buf (omega arith)

turned_step :
    (buf : Bytes) (begin end q : ℕ)
    → IsBytes buf
    → begin < end
    → turned (store8 (store8 buf begin (buf end)) end (buf begin)) (begin + 1) (end - 1) q
      ≡ turned buf begin end q
unfolding store8
turned_step buf begin end q bytes h =
    ground (arith, bytes begin, bytes end, at_begin, at_end, inner)
  where
    at_begin : q ≡ begin → buf (begin + end - q) ≡ buf end
    at_begin e = ap buf (omega arith)

    at_end : q ≡ end → buf (begin + end - q) ≡ buf begin
    at_end e = ap buf (omega arith)

    inner : begin < q → q < end → buf (begin + 1 + (end - 1) - q) ≡ buf (begin + end - q)
    inner e f = ap buf (omega arith)

pub swap_ends-turned :
    (fuel : ℕ) (buf : Bytes) (begin end q : ℕ)
    → IsBytes buf
    → end ≤ begin + fuel
    → swap_ends fuel buf begin end q ≡ turned buf begin end q
unfolding swap_ends
swap_ends-turned zero buf begin end q bytes h = turned_short buf begin end q (omega arith)
swap_ends-turned (suc fuel) buf begin end q bytes h = elim (Bool-cases (ltb begin end)) [
  | inl more ↦ rw more (
      swap_ends-turned fuel (store8 (store8 buf begin (buf end)) end (buf begin)) (begin + 1)
        (end - 1) q
        (store8-IsBytes (store8 buf begin (buf end)) end (buf begin)
          (store8-IsBytes buf begin (buf end) bytes))
        (omega arith)
      ∙ turned_step buf begin end q bytes (ground (arith, more)))
  | inr done ↦ rw done (turned_short buf begin end q (ground (arith, done)))
]

-- What is left of `u` after `j` digits.
abbrev pub shifted : ℕ → ℕ → ℕ → ℕ
shifted u base zero = u
shifted u base (suc j) = shifted (u / base) base j

-- The digits of `u`, the last first, stand from `p` on, and the buffer is the same elsewhere.
pub record Written (buf : Bytes) (p u base : ℕ) (upcase : Bool) (put : Bytes) (n : ℕ) : Type 0 where
  pub count : ℕ
  pub ends : n ≡ p + suc count
  pub digits : (j : ℕ) → j ≤ count → put (p + j) ≡ digit upcase (shifted u base j % base)
  pub whole : shifted u base (suc count) ≡ 0
  pub top : 0 < count → shifted u base count ≢ 0
  pub frame : (q : ℕ) → (q < p) ⊎ (n ≤ q) → put q ≡ buf q
  pub bytes : IsBytes buf → IsBytes put

abbrev pub IsDone : Bytes → ℕ → ℕ → ℕ → Bool → Option (Bytes × ℕ) → Type 0
IsDone buf p u base upcase r =
    (put : Bytes) × (n : ℕ) × (r ≡ some (put, n)) × Written buf p u base upcase put n

module _ (buf : Bytes) (p u base : ℕ) (upcase : Bool) (low : 2 ≤ base) (high : base ≤ 36) where
  abbrev put_one : Bytes
  put_one = store8 buf p (digit upcase (u % base))

  put_one_self : put_one p ≡ digit upcase (u % base)
  unfolding store8
  put_one_self = ground (arith, mod-lt u {m = base} (omega arith))

  put_one-other : (q : ℕ) → q ≢ p → put_one q ≡ buf q
  unfolding store8
  put_one-other q h = ground arith

  put_one-IsBytes : IsBytes buf → IsBytes put_one
  put_one-IsBytes = store8-IsBytes buf p (digit upcase (u % base))

  Written-last : u / base ≡ 0 → Written buf p u base upcase put_one (p + 1)
  Written-last done = record {
    count = 0;
    ends = omega arith;
    digits = first;
    whole = done;
    top = λ h. absurd (omega arith);
    frame = λ q h. put_one-other q (omega arith);
    bytes = put_one-IsBytes;
  }
    where
      first : (j : ℕ) → j ≤ 0 → put_one (p + j) ≡ digit upcase (shifted u base j % base)
      first zero h = ap put_one (omega arith) ∙ put_one_self
      first (suc j) h = absurd (omega arith)

  Written-step :
      (put : Bytes) (n : ℕ)
      → u / base ≢ 0
      → Written put_one (p + 1) (u / base) base upcase put n
      → Written buf p u base upcase put n
  Written-step put n more w = record {
    count = suc w.count;
    ends = omega (arith, w.ends);
    digits = each;
    whole = w.whole;
    top = λ h. above w.count w.top;
    frame = λ q h. w.frame q (omega (arith, w.ends)) ∙ put_one-other q (omega (arith, w.ends));
    bytes = λ h. w.bytes (put_one-IsBytes h);
  }
    where
      each : (j : ℕ) → j ≤ suc w.count → put (p + j) ≡ digit upcase (shifted u base j % base)
      each zero h = ap put (omega arith) ∙ w.frame p (omega arith) ∙ put_one_self
      each (suc j) h = ap put (omega arith) ∙ w.digits j (omega arith)

      above : (c : ℕ) → (0 < c → shifted (u / base) base c ≢ 0) → shifted (u / base) base c ≢ 0
      above zero h = more
      above (suc c) h = h (omega arith)

pub put_digits-IsDone :
    (fuel : ℕ) (buf : Bytes) (p u base : ℕ) (upcase : Bool)
    → 2 ≤ base
    → base ≤ 36
    → 0 < fuel
    → u < 2 ^ fuel
    → IsDone buf p u base upcase (put_digits fuel buf p u base upcase)
unfolding put_digits
put_digits-IsDone zero buf p u base upcase h k f g = absurd (omega arith)
put_digits-IsDone (suc fuel) buf p u base upcase h k f g = elim (Bool-cases (u / base == 0)) [
  | inl done ↦ (
    put_one buf p u base upcase h k,
    p + 1,
    rw done refl,
    Written-last buf p u base upcase h k (ground (arith, done)),
  )
  | inr more ↦
      let (put, n, e, w) =
        put_digits-IsDone fuel (put_one buf p u base upcase h k) (p + 1) (u / base) base upcase h k
          (ground (arith, more, halved, some_fuel)) halved in
      (put, n, rw more e, Written-step buf p u base upcase h k put n (ground (arith, more)) w)
]
  where
    twice : u / base * 2 ≤ u / base * base
    twice = mul-le-mul_left (u / base) h

    halved : u / base < 2 ^ fuel
    halved = omega (arith, twice, div-mul-le_self u base, pow-suc 2 fuel)

    some_fuel : fuel ≡ 0 → 2 ^ fuel ≡ 1
    some_fuel e = ap (λ f. 2 ^ f) e
