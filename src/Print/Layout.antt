-- ===== src/Print/Layout.antt =====
-- How `printNum` of user/lib/printf.c pads the digits and turns them round.
use riem_os.Base.{
  ℕ, ◌+◌, ◌-◌, ◌^◌, ◌<◌, ◌≤◌, ◌≡◌, refl, ◌∙◌, sym, subst, ==_iff, ap, arith, Bool, true, false, not,
  ◌&&◌, some, ltb, leb, ◌==◌, if◌then◌else◌, Bool-cases, inl, inr,
}
use riem_os.Memory.Ram.{Bytes, store8}
use riem_os.Memory.Ram.Copy.{IsBytes, store8-IsBytes}
use riem_os.Print.{fill, swap_ends, pad_number, finish_number, sign_number, print_num}
use riem_os.Print.Digits.{fill_lem, fill-IsBytes, swap_ends-turned, Written, put_digits-IsDone}

module _ (buf : Bytes) (actual length padc : ℕ) (fits : actual ≤ length) (char : padc < 256) where
  pad_number-plain :
      (neg_flag ladjust : Bool) (q : ℕ)
      → (neg_flag && not ladjust && padc == 48) ≡ false
      → pad_number buf actual neg_flag length ladjust padc q
        ≡ (if leb actual q && ltb q length then padc else buf q)
  unfolding pad_number
  pad_number-plain neg_flag ladjust q h =
      rw h (ground (arith, fill_lem (length - actual) buf actual padc q char))

  pad_number-zeros :
      (q : ℕ)
      → 0 < actual
      → padc ≡ 48
      → pad_number buf actual true length false padc q ≡ (
          if q == length - 1
          then 45
          else if leb (actual - 1) q && ltb q (length - 1)
          then 48
          else buf q)
  unfolding pad_number store8
  pad_number-zeros q h e = ground (arith, fill_lem (length - actual) buf (actual - 1) padc q char)

  pad_number-IsBytes :
      (neg_flag ladjust : Bool)
      → IsBytes buf
      → IsBytes (pad_number buf actual neg_flag length ladjust padc)
  unfolding pad_number
  pad_number-IsBytes neg_flag ladjust h =
      elim (Bool-cases (neg_flag && not ladjust && padc == 48)) [
        | inl zeros ↦ rw zeros (
            store8-IsBytes (fill (length - actual) buf (actual - 1) padc) (length - 1) 45
              (fill-IsBytes (length - actual) buf (actual - 1) padc h))
        | inr plain ↦ rw plain (fill-IsBytes (length - actual) buf actual padc h)
      ]

-- The text that is left: `written` characters of the number and its sign, the last first in `buf`.
abbrev pub laid_out : Bytes → ℕ → Bool → ℕ → Bool → ℕ → Bytes
laid_out buf written neg_flag length ladjust padc q =
    let end = if ladjust then written else length in
    if q == length
    then 0
    else if ltb length q
    then buf q
    else if neg_flag && not ladjust && padc == 48
    then (if q == 0 then 45 else if leb q (length - written) then 48 else buf (length - 1 - q))
    else if leb end q
    then 32
    else if ltb q (end - written)
    then padc
    else buf (end - 1 - q)

module _ (buf : Bytes) (written length : ℕ) (some_written : 0 < written) (fits : written ≤ length)
    (bytes : IsBytes buf) where
  -- The text from `padded`, turned round up to the index `end`.
  close_text :
      (padded : Bytes) (end q : ℕ)
      → IsBytes padded
      → end < length
      → store8 (swap_ends length padded 0 end) length 0 q
        ≡ (if q == length then 0 else if leb q end then padded (end - q) else padded q)
  unfolding store8
  close_text padded end q bytes h =
      ground (arith, swap_ends-turned length padded 0 end q bytes (omega arith), same)
    where
      same : padded (0 + end - q) ≡ padded (end - q)
      same = ap padded (omega arith)

  plain-right :
      (neg_flag : Bool) (padc q : ℕ)
      → padc < 256
      → (neg_flag && not false && padc == 48) ≡ false
      → store8
          (swap_ends length (pad_number buf written neg_flag length false padc) 0 (length - 1))
          length
          0
          q
        ≡ laid_out buf written neg_flag length false padc q
  plain-right neg_flag padc q char plain = ground (
    arith,
    plain,
    close_text (pad_number buf written neg_flag length false padc) (length - 1) q
        (pad_number-IsBytes buf written length padc fits char neg_flag false bytes) (omega arith),
    pad_number-plain buf written length padc fits char neg_flag false (length - 1 - q) plain,
    pad_number-plain buf written length padc fits char neg_flag false q plain,
  )

  plain-left :
      (neg_flag : Bool) (padc q : ℕ)
      → store8
          (swap_ends length (pad_number buf written neg_flag length true 32) 0 (written - 1))
          length
          0
          q
        ≡ laid_out buf written neg_flag length true padc q
  plain-left neg_flag padc q = ground (
    arith,
    unsigned neg_flag,
    close_text (pad_number buf written neg_flag length true 32) (written - 1) q
        (pad_number-IsBytes buf written length 32 fits (omega arith) neg_flag true bytes)
        (omega arith),
    pad_number-plain buf written length 32 fits (omega arith) neg_flag true (written - 1 - q)
        (unsigned neg_flag),
    pad_number-plain buf written length 32 fits (omega arith) neg_flag true q (unsigned neg_flag),
  )
    where
      unsigned : (b : Bool) → (b && not true && 32 == 48) ≡ false
      unsigned true = refl
      unsigned false = refl

  zeros :
      (q : ℕ)
      → store8
          (swap_ends length (pad_number buf written true length false 48) 0 (length - 1))
          length
          0
          q
        ≡ laid_out buf written true length false 48 q
  zeros q = ground (
    arith,
    close_text (pad_number buf written true length false 48) (length - 1) q
        (pad_number-IsBytes buf written length 48 fits (omega arith) true false bytes)
        (omega arith),
    pad_number-zeros buf written length 48 fits (omega arith) (length - 1 - q) some_written refl,
    pad_number-zeros buf written length 48 fits (omega arith) q some_written refl,
  )

-- The text that `printNum` makes of its digits and its sign.
pub finish_number-laid_out :
    (buf : Bytes) (written : ℕ) (neg_flag : Bool) (width : ℕ) (ladjust : Bool) (padc q : ℕ)
    → 0 < written
    → padc < 256
    → IsBytes buf
    → finish_number buf written neg_flag width ladjust padc q
      ≡ laid_out buf written neg_flag (if ltb width written then written else width) ladjust padc q
unfolding finish_number
finish_number-laid_out buf written neg_flag width true padc q some_written char bytes =
    plain-left buf written (if ltb width written then written else width) some_written
      (ground arith) bytes neg_flag padc q
finish_number-laid_out buf written false width false padc q some_written char bytes =
    plain-right buf written (if ltb width written then written else width) some_written
      (ground arith) bytes false padc q char refl
finish_number-laid_out buf written true width false padc q some_written char bytes =
    elim (Bool-cases (padc == 48)) [
      | inl zero_char ↦
          subst
            (λ c.
              finish_number buf written true width false c q
              ≡ laid_out buf written true (if ltb width written then written else width) false c q)
            (sym ((==_iff padc 48).0 zero_char))
            (zeros buf written (if ltb width written then written else width) some_written
              (ground arith) bytes q)
      | inr other ↦
          plain-right buf written (if ltb width written then written else width) some_written
            (ground arith) bytes true padc q char other
    ]

-- The buffer with its sign, and how many characters that makes.
abbrev pub signed : Bytes → ℕ → Bool → Bytes
signed put n neg_flag = if neg_flag then store8 put n 45 else put

abbrev pub with_sign : ℕ → Bool → ℕ
with_sign n neg_flag = if neg_flag then n + 1 else n

signed-IsBytes :
    (put : Bytes) (n : ℕ) (neg_flag : Bool) → IsBytes put → IsBytes (signed put n neg_flag)
signed-IsBytes put n true h = store8-IsBytes put n 45 h
signed-IsBytes put n false h = h

sign_step :
    (put : Bytes) (n : ℕ) (neg_flag : Bool) (width : ℕ) (ladjust : Bool) (padc : ℕ)
    → sign_number (some (put, n)) neg_flag width ladjust padc
      ≡ some
          (finish_number (signed put n neg_flag) (with_sign n neg_flag) neg_flag width ladjust padc)
sign_step put n true width ladjust padc = refl
sign_step put n false width ladjust padc = refl

-- `printNum` ends, for every `unsigned long`, base from 2 to 36, width, sign and padding: the buffer
-- holds the digits of the number without leading zeros, the most significant first, in front of
-- them the sign, padded on the side that is asked for, and a NUL.
pub print_num-laid_out :
    (buf : Bytes) (u base : ℕ) (neg_flag : Bool) (width : ℕ) (ladjust : Bool) (padc : ℕ)
    (upcase : Bool)
    → 2 ≤ base
    → base ≤ 36
    → u < 2 ^ 64
    → padc < 256
    → IsBytes buf
    → (text put : Bytes) × (n : ℕ) × (print_num buf u base neg_flag width ladjust padc upcase
        ≡ some text)
      × Written buf 0 u base upcase put n
      × ((q : ℕ)
          → text q
            ≡ laid_out
                (signed put n neg_flag)
                (with_sign n neg_flag)
                neg_flag
                (if ltb width (with_sign n neg_flag) then with_sign n neg_flag else width)
                ladjust
                padc
                q)
print_num-laid_out buf u base neg_flag width ladjust padc upcase low high long char bytes =
    let (put, n, e, w) = put_digits-IsDone 64 buf 0 u base upcase low high (omega arith) long in
    let signed_bytes : IsBytes (signed put n neg_flag) =
      signed-IsBytes put n neg_flag (w.bytes bytes) in
    (
      finish_number (signed put n neg_flag) (with_sign n neg_flag) neg_flag width ladjust padc,
      put,
      n,
      (unfold print_num in
          ap (λ r. sign_number r neg_flag width ladjust padc) e
          ∙ sign_step put n neg_flag width ladjust padc),
      w,
      λ q.
          finish_number-laid_out (signed put n neg_flag) (with_sign n neg_flag) neg_flag width
            ladjust padc q (ground (arith, w.ends)) char signed_bytes,
    )
