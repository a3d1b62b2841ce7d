-- ===== src/Print.antt =====
-- Numbers, characters and strings as user/lib/printf.c lays them out in a buffer. A buffer is its bytes
-- from index 0 on; `length` is not negative, and a `unsigned long` is below 2 ^ 64.
pub mod Digits
pub mod Layout
pub mod Atoi
pub mod Format
pub mod Buffer
use riem_os.Base.{
  ℕ, zero, suc, ◌+◌, ◌-◌, ◌*◌, ◌/◌, ◌%◌, ◌<◌, Bool, true, false, not, ◌&&◌, Option, none, some, ltb,
  leb, ◌==◌, if◌then◌else◌,
}
use riem_os.Memory.Ram.{Bytes, store8}

-- The character of one digit.
abbrev pub digit : Bool → ℕ → ℕ
digit upcase tmp = if leb tmp 9 then 48 + tmp else if upcase then 65 + tmp - 10 else 97 + tmp - 10

-- The do-while loop of `printNum`, which writes the digits backwards, on fuel: the buffer, and `p - buf`.
unfoldable pub put_digits : ℕ → Bytes → ℕ → ℕ → ℕ → Bool → Option (Bytes × ℕ)
unfolding store8
put_digits zero buf p u base upcase = none
put_digits (suc fuel) buf p u base upcase =
    let put = store8 buf p (digit upcase (u % base)) in
    let rest = put_digits fuel put (p + 1) (u / base) base upcase in
    if u / base == 0 then some (put, p + 1) else rest

-- for (i = at; i < at + n; i++) buf[i] = c;
unfoldable pub fill : ℕ → Bytes → ℕ → ℕ → Bytes
unfolding store8
fill zero buf at c = buf
fill (suc n) buf at c = fill n (store8 buf at c) (at + 1) c

-- The loop that reverses the text between `begin` and `end`; fuel for `end` is enough.
unfoldable pub swap_ends : ℕ → Bytes → ℕ → ℕ → Bytes
unfolding store8
swap_ends zero buf begin end = buf
swap_ends (suc fuel) buf begin end =
    let rest =
      swap_ends fuel (store8 (store8 buf begin (buf end)) end (buf begin)) (begin + 1) (end - 1) in
    if ltb begin end then rest else buf

-- The padding of `printNum`, up to its reversal.
unfoldable pub pad_number : Bytes → ℕ → Bool → ℕ → Bool → ℕ → Bytes
unfolding fill store8
pad_number buf actual neg_flag length ladjust padc =
    if neg_flag && not ladjust && padc == 48
    then store8 (fill (length - actual) buf (actual - 1) padc) (length - 1) 45
    else fill (length - actual) buf actual padc

-- `printNum` behind its sign.
unfoldable pub finish_number : Bytes → ℕ → Bool → ℕ → Bool → ℕ → Bytes
unfolding pad_number swap_ends store8
finish_number buf actual neg_flag width ladjust padc =
    let length = if ltb width actual then actual else width in
    let padded = pad_number buf actual neg_flag length ladjust (if ladjust then 32 else padc) in
    let end = if ladjust then actual - 1 else length - 1 in
    store8 (swap_ends length padded 0 end) length 0

abbrev pub sign_number : Option (Bytes × ℕ) → Bool → ℕ → Bool → ℕ → Option Bytes
sign_number none neg_flag length ladjust padc = none
sign_number (some (buf, n)) neg_flag length ladjust padc = some (
    if neg_flag
    then finish_number (store8 buf n 45) (n + 1) neg_flag length ladjust padc
    else finish_number buf n neg_flag length ladjust padc)

-- A `unsigned long` has at most 64 digits.
unfoldable pub print_num : Bytes → ℕ → ℕ → Bool → ℕ → Bool → ℕ → Bool → Option Bytes
unfolding put_digits finish_number
print_num buf u base neg_flag length ladjust padc upcase =
    sign_number (put_digits 64 buf 0 u base upcase) neg_flag length ladjust padc

unfoldable pub print_char : Bytes → ℕ → ℕ → Bool → Bytes
unfolding fill store8
print_char buf c width ladjust =
    let length = if ltb width 1 then 1 else width in
    let placed =
      if ladjust
      then fill (length - 1) (store8 buf 0 c) 1 32
      else store8 (fill (length - 1) buf 0 32) (length - 1) c in
    store8 placed length 0

-- for (i = at; i < at + n; i++) buf[i] = s[i - at];
unfoldable pub put_text : ℕ → Bytes → ℕ → Bytes → ℕ → Bytes
unfolding store8
put_text zero buf at s i = buf
put_text (suc n) buf at s i = put_text n (store8 buf at (s i)) (at + 1) s (i + 1)

-- `len` is the length of `s`, which the first loop of `printString` counts.
unfoldable pub print_string : Bytes → Bytes → ℕ → ℕ → Bool → Bytes
unfolding fill put_text store8
print_string buf s len width ladjust =
    let length = if ltb width len then len else width in
    let placed =
      if ladjust
      then fill (length - len) (put_text len buf 0 s 0) len 32
      else put_text len (fill (length - len) buf 0 32) (length - len) s 0 in
    store8 placed length 0
