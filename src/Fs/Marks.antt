-- ===== src/Fs/Marks.antt =====
-- Single bits of a word, which is what the bitmap of fs/fs.c is read and written by.
use riem_os.Base.{
  ℕ, zero, suc, ◌+◌, ◌-◌, ◌*◌, ◌/◌, ◌%◌, ◌^◌, ◌≤◌, ◌<◌, ◌≡◌, refl, ◌∙◌, sym, ap, Bool, true, false,
  ◌||◌, ◌&&◌, not, ==_iff, Bool-cases, inl, inr, ◌==◌, arith,
}
use native.Mathlib.Decide.{dec_lt}
use native.Mathlib.Nat.{pow-suc, div-eq_of_lt, div-add-mod, div-div-eq-div-mul}
use riem_os.Memory.Pte.{has_bit}
use riem_os.Memory.Ram.{Bytes, load32, store32}
use riem_os.Memory.Ram.Words.{load32-store32_self, load32-store32_ne}
use riem_os.Fs.{with_bit, without_bit}

double : (k : ℕ) → 2 ^ suc k ≡ 2 * 2 ^ k
double k = omega (arith, pow-suc 2 k)

halve : (k w : ℕ) → w / 2 ^ suc k ≡ w / 2 / 2 ^ k
halve k w = ap (λ t. w / t) (double k) ∙ sym (div-div-eq-div-mul w 2 (2 ^ k))

has_bit_halve : (k w : ℕ) → has_bit (suc k) w ≡ has_bit k (w / 2)
has_bit_halve k w = ap (λ t. t % 2 == 1) (halve k w)

mod_halve : (n w : ℕ) → w % 2 ^ suc n ≡ 2 * (w / 2 % 2 ^ n) + w % 2
mod_halve n w = omega (
  arith,
  double n,
  halve n w,
  div-add-mod w (2 ^ suc n),
  div-add-mod (w / 2) (2 ^ n),
  ap (λ t. t * (w / 2 ^ suc n)) (double n),
  ap (λ t. 2 ^ n * t) (halve n w),
)

-- A store keeps the low bits.
pub has_bit-mod : (k n w : ℕ) → k < n → has_bit k (w % 2 ^ n) ≡ has_bit k w
has_bit-mod k zero w h = absurd (omega arith)
has_bit-mod zero (suc n) w h = ground (arith, mod_halve n w)
has_bit-mod (suc k) (suc n) w h =
    has_bit_halve k (w % 2 ^ suc n)
    ∙ ap (has_bit k) (omega (arith, mod_halve n w))
    ∙ has_bit-mod k n (w / 2) (omega arith)
    ∙ sym (has_bit_halve k w)

-- The same bit of two words whose halves have the same.
same_halves : (j v w : ℕ) → v / 2 ≡ w / 2 → has_bit (suc j) v ≡ has_bit (suc j) w
same_halves j v w e = has_bit_halve j v ∙ ap (has_bit j) e ∙ sym (has_bit_halve j w)

has_bit-plus : (j k w : ℕ) → has_bit k w ≡ false → has_bit j (w + 2 ^ k) ≡ (j == k || has_bit j w)
has_bit-plus zero zero w h = ground arith
has_bit-plus (suc j) zero w h = ground (arith, same_halves j (w + 1) w)
has_bit-plus zero (suc k) w h = ground (arith, double k)
has_bit-plus (suc j) (suc k) w h =
    has_bit_halve j (w + 2 ^ suc k)
    ∙ ap (has_bit j) (omega (arith, double k))
    ∙ has_bit-plus j k (w / 2) (sym (has_bit_halve k w) ∙ h)
    ∙ ground (arith, has_bit_halve j w)

has_bit-reaches : (k w : ℕ) → has_bit k w ≡ true → 2 ^ k ≤ w
has_bit-reaches k w h = elim (dec_lt w (2 ^ k)) [
  | yes p ↦ absurd (ground (arith, div-eq_of_lt p))
  | no p ↦ omega arith
]

has_bit-minus :
    (j k w : ℕ) → has_bit k w ≡ true → has_bit j (w - 2 ^ k) ≡ (not (j == k) && has_bit j w)
has_bit-minus zero zero w h = ground arith
has_bit-minus (suc j) zero w h = ground (arith, same_halves j (w - 1) w)
has_bit-minus zero (suc k) w h = ground (arith, double k, has_bit-reaches (suc k) w h)
has_bit-minus (suc j) (suc k) w h =
    has_bit_halve j (w - 2 ^ suc k)
    ∙ ap (has_bit j) (omega (arith, double k))
    ∙ has_bit-minus j k (w / 2) (sym (has_bit_halve k w) ∙ h)
    ∙ ground (arith, has_bit_halve j w)

bit_there : (j k w : ℕ) (b : Bool) → has_bit k w ≡ b → (j == k) ≡ true → has_bit j w ≡ b
bit_there j k w b h e = ap (λ t. has_bit t w) ((==_iff j k).0 e) ∙ h

-- Setting a bit that is set, and clearing one that is clear.
still_set : (j k w : ℕ) → has_bit k w ≡ true → has_bit j w ≡ (j == k || has_bit j w)
still_set j k w h = elim (Bool-cases (j == k)) [
  | inl e ↦ rw e (bit_there j k w true h e)
  | inr e ↦ rw e refl
]

still_clear : (j k w : ℕ) → has_bit k w ≡ false → has_bit j w ≡ (not (j == k) && has_bit j w)
still_clear j k w h = elim (Bool-cases (j == k)) [
  | inl e ↦ rw e (bit_there j k w false h e)
  | inr e ↦ rw e refl
]

-- The word with a bit set or cleared, stored as a u_int.
pub has_bit-with_bit :
    (j k w : ℕ) → j < 32 → has_bit j (with_bit k w % 2 ^ 32) ≡ (j == k || has_bit j w)
has_bit-with_bit j k w h = has_bit-mod j 32 (with_bit k w) h ∙ elim (Bool-cases (has_bit k w)) [
  | inl e ↦ rw e (still_set j k w e)
  | inr e ↦ rw e (has_bit-plus j k w e)
]

pub has_bit-without_bit :
    (j k w : ℕ) → j < 32 → has_bit j (without_bit k w % 2 ^ 32) ≡ (not (j == k) && has_bit j w)
has_bit-without_bit j k w h =
    has_bit-mod j 32 (without_bit k w) h ∙ elim (Bool-cases (has_bit k w)) [
      | inl e ↦ rw e (has_bit-minus j k w e)
      | inr e ↦ rw e (still_clear j k w e)
    ]

-- The bit of block `c` in the bitmap at `bitmap`.
abbrev pub marked : Bytes → ℕ → ℕ → Bool
marked m bitmap c = has_bit (c % 32) (load32 m (bitmap + 4 * (c / 32)))

same_block : (b c : ℕ) → c / 32 ≡ b / 32 → (c % 32 == b % 32) ≡ (c == b)
same_block b c e = elim (Bool-cases (c == b)) [ inl h ↦ ground arith | inr h ↦ ground arith ]

-- Storing a word of the bitmap changes the bits of that word only.
marked-store32_ne :
    (m : Bytes) (bitmap b c v : ℕ)
    → (c / 32 == b / 32) ≡ false
    → marked (store32 m (bitmap + 4 * (b / 32)) v) bitmap c ≡ marked m bitmap c
marked-store32_ne m bitmap b c v h =
    ap (has_bit (c % 32)) (load32-store32_ne m _ v _ (ground arith))

marked-store32_self :
    (m : Bytes) (bitmap b c v : ℕ)
    → c / 32 ≡ b / 32
    → marked (store32 m (bitmap + 4 * (b / 32)) v) bitmap c ≡ has_bit (c % 32) (v % 2 ^ 32)
marked-store32_self m bitmap b c v h = rw h (ap (has_bit (c % 32)) (load32-store32_self m _ v))

other_block : (b c : ℕ) → (c / 32 == b / 32) ≡ false → (c == b) ≡ false
other_block b c h = ground arith

-- The word of `b` with a bit set or cleared.
pub marked-with_bit :
    (m : Bytes) (bitmap b c : ℕ)
    → marked
        (store32 m (bitmap + 4 * (b / 32)) (with_bit (b % 32) (load32 m (bitmap + 4 * (b / 32)))))
        bitmap
        c
      ≡ (c == b || marked m bitmap c)
marked-with_bit m bitmap b c = elim (Bool-cases (c / 32 == b / 32)) [
  | inl e ↦
      let same = (==_iff (c / 32) (b / 32)).0 e in
      marked-store32_self m bitmap b c _ same
      ∙ has_bit-with_bit (c % 32) (b % 32) _ (omega arith)
      ∙ rw (same_block b c same, same) refl
  | inr e ↦ marked-store32_ne m bitmap b c _ e ∙ rw (other_block b c e) refl
]

pub marked-without_bit :
    (m : Bytes) (bitmap b c : ℕ)
    → marked
        (store32 m
          (bitmap + 4 * (b / 32))
          (without_bit (b % 32) (load32 m (bitmap + 4 * (b / 32)))))
        bitmap
        c
      ≡ (not (c == b) && marked m bitmap c)
marked-without_bit m bitmap b c = elim (Bool-cases (c / 32 == b / 32)) [
  | inl e ↦
      let same = (==_iff (c / 32) (b / 32)).0 e in
      marked-store32_self m bitmap b c _ same
      ∙ has_bit-without_bit (c % 32) (b % 32) _ (omega arith)
      ∙ rw (same_block b c same, same) refl
  | inr e ↦ marked-store32_ne m bitmap b c _ e ∙ rw (other_block b c e) refl
]
