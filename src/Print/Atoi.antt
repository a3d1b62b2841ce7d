-- ===== src/Print/Atoi.antt =====
-- `printNum` of user/lib/printf.c and `atoi` of user/lib/uLib.c.
use riem_os.Base.{
  ℕ, zero, suc, ◌+◌, ◌-◌, ◌*◌, ◌/◌, ◌%◌, ◌^◌, ◌<◌, ◌≤◌, ◌≡◌, refl, ◌∙◌, sym, subst, ==_iff, ap,
  arith, Bool, true, false, some, ltb, ◌==◌, if◌then◌else◌, Bool-cases, inl, inr, ◌⊎◌,
}
use riem_os.Memory.Ram.{Bytes}
use riem_os.Memory.Ram.Copy.{IsBytes}
use riem_os.Ulib.{atoi, atoi_from}
use riem_os.Print.{print_num}
use riem_os.Print.Digits.{Written, shifted}
use riem_os.Print.Layout.{laid_out, print_num-laid_out}

shifted-suc : (u j : ℕ) → shifted u 10 (suc j) ≡ shifted u 10 j / 10
shifted-suc u zero = refl
shifted-suc u (suc j) = shifted-suc (u / 10) j

shifted-le : (u j : ℕ) → shifted u 10 j ≤ u
shifted-le u zero = omega arith
shifted-le u (suc j) = omega (arith, shifted-le (u / 10) j)

-- Behind the digits of a number there are only zeros.
shifted-zero : (u c i : ℕ) → shifted u 10 c ≡ 0 → c ≤ i → shifted u 10 i ≡ 0
shifted-zero u c zero h le = ground (arith, ap (shifted u 10) (at_zero le), h)
  where
    at_zero : c ≤ 0 → c ≡ 0
    at_zero le = omega arith
shifted-zero u c (suc i) h le = elim (Bool-cases (c == suc i)) [
  | inl same ↦ ap (shifted u 10) (sym ((==_iff c (suc i)).0 same)) ∙ h
  | inr less ↦ shifted-suc u i ∙ omega (arith, shifted-zero u c i h (ground (arith, less, le)))
]

-- `j` more digits complete the number.
atoi_from-digits :
    (j fuel : ℕ) (m : Bytes) (s u : ℕ)
    → j < fuel
    → u < 2 ^ 31
    → ((i : ℕ) → i < j → m (s + i) ≡ 48 + shifted u 10 (j - 1 - i) % 10)
    → m (s + j) < 48
    → atoi_from fuel m s (shifted u 10 j) ≡ some u
unfolding atoi_from
atoi_from-digits j zero m s u h small digits end = absurd (omega arith)
atoi_from-digits zero (suc fuel) m s u h small digits end = ground (arith, here)
  where
    here : m (s + 0) ≡ m s
    here = ap m (omega arith)
atoi_from-digits (suc j) (suc fuel) m s u h small digits end = ground (
  arith,
  first,
  ap (atoi_from fuel m (s + 1)) value,
  atoi_from-digits j fuel m (s + 1) u (omega arith) small
      (λ i k. ap m (omega arith) ∙ digits (suc i) (omega arith) ∙ later i)
      (subst (λ c. m c < 48) at_end end),
)
  where
    none_read : suc j - 1 - 0 ≡ j
    none_read = omega arith

    first : m s ≡ 48 + shifted u 10 j % 10
    first =
        ap m (omega arith) ∙ digits 0 (omega arith) ∙ ap (λ t. 48 + shifted u 10 t % 10) none_read

    value : (shifted (u / 10) 10 j * 10 + m s - 48) % 2 ^ 32 ≡ shifted u 10 j
    value = omega (arith, first, shifted-suc u j, shifted-le u j)

    one_more : (i : ℕ) → suc j - 1 - suc i ≡ j - 1 - i
    one_more i = omega arith

    later :
        (i : ℕ) → 48 + shifted u 10 (suc j - 1 - suc i) % 10 ≡ 48 + shifted u 10 (j - 1 - i) % 10
    later i = ap (λ t. 48 + shifted u 10 t % 10) (one_more i)

    at_end : s + suc j ≡ s + 1 + j
    at_end = omega arith

module _ (buf put text : Bytes) (u n width padc : ℕ) (ladjust : Bool)
    (w : Written buf 0 u 10 false put n)
    (cells : (q : ℕ)
      → text q ≡ laid_out put n false (if ltb width n then n else width) ladjust padc q) where
  put_digit : (i : ℕ) → i < n → put i ≡ 48 + shifted u 10 i % 10
  put_digit i h = ap put (omega arith) ∙ w.digits i (omega (arith, w.ends)) ∙ ground arith

  nothing_left : (j : ℕ) → n ≤ j → shifted u 10 j ≡ 0
  nothing_left j h = shifted-zero u (suc w.count) j w.whole (omega (arith, w.ends))

  reads_left :
      ladjust ≡ true → u < 2 ^ 31 → (fuel : ℕ) → n < fuel → atoi_from fuel text 0 0 ≡ some u
  reads_left left small fuel h =
      subst (λ t. atoi_from fuel text 0 t ≡ some u) (nothing_left n (omega arith))
        (atoi_from-digits n fuel text 0 u h small
          (λ i k. ap text (omega arith) ∙ cells i ∙ ground (arith, left, put_digit (n - 1 - i)))
          (ground (arith, left, cells n, at_n)))
    where
      at_n : text (0 + n) ≡ text n
      at_n = ap text (omega arith)

  reads_right :
      ladjust ≡ false
      → padc ≡ 48
      → u < 2 ^ 31
      → (fuel : ℕ) → (if ltb width n then n else width) < fuel
      → atoi_from fuel text 0 0 ≡ some u
  reads_right right zeros small fuel h =
      subst (λ t. atoi_from fuel text 0 t ≡ some u) (nothing_left size (ground arith))
        (atoi_from-digits size fuel text 0 u h small
          (λ i k. ap text (omega arith) ∙ cells i ∙ cell i k) (ground (arith, cells size, at_size)))
    where
      size : ℕ
      size = if ltb width n then n else width

      at_size : text (0 + size) ≡ text size
      at_size = ap text (omega arith)

      cell :
          (i : ℕ)
          → i < size
          → laid_out put n false size ladjust padc i ≡ 48 + shifted u 10 (size - 1 - i) % 10
      cell i k = ground (arith, right, zeros, put_digit (size - 1 - i), nothing_left (size - 1 - i))

-- `atoi` reads back what `printNum` has written: for a number below 2 ^ 31 in base 10, without a sign,
-- adjusted to the left or padded with zeros, for every width, given fuel for the text.
pub atoi-print_num :
    (buf : Bytes) (u width : ℕ) (ladjust : Bool) (padc : ℕ)
    → u < 2 ^ 31
    → padc < 256
    → (ladjust ≡ true) ⊎ (padc ≡ 48)
    → IsBytes buf
    → (text : Bytes) × (size : ℕ) × (print_num buf u 10 false width ladjust padc false ≡ some text)
      × ((fuel : ℕ) → size < fuel → atoi fuel text 0 ≡ some u)
unfolding atoi
atoi-print_num buf u width ladjust padc small char shape bytes =
    let (text, put, n, e, w, cells) =
      print_num-laid_out buf u 10 false width ladjust padc false (omega arith) (omega arith)
        (omega arith) char bytes in
    (
      text,
      (if ltb width n then n else width),
      e,
      λ fuel h. elim (Bool-cases ladjust) [
        | inl left ↦
            reads_left buf put text u n width padc ladjust w cells left small fuel
              (ground (arith, h))
        | inr right ↦
            reads_right buf put text u n width padc ladjust w cells right (zeros right) small fuel h
      ],
    )
  where
    zeros : ladjust ≡ false → padc ≡ 48
    zeros h = ground (arith, h, shape)
