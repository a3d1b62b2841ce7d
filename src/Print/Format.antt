-- ===== src/Print/Format.antt =====
-- `print` of user/lib/printf.c and of kernel/driver/print.c, which differ in where a character goes:
-- `put` for most, `direct` for that of an unknown conversion. `args` are the words that `va_arg` gives.
-- Widths stay below 2 ^ 31. `none`: the fuel runs out, a text has no NUL within it, or `direct` stops.
use riem_os.Base.{
  ℕ, zero, suc, ◌+◌, ◌-◌, ◌*◌, ◌%◌, ◌^◌, Bool, true, false, not, ◌&&◌, ◌||◌, Option, none, some,
  ltb, leb, ◌==◌, if◌then◌else◌,
}
use riem_os.Memory.Ram.{Bytes}
use riem_os.Ulib.{strlen_from}
use riem_os.Print.{print_num, print_char, print_string}

abbrev pub is_digit : ℕ → Bool
is_digit c = leb 48 c && leb c 57

-- while (IsDigit(c)) { n = n * 10 + c - '0'; c = fmt[++i]; }
unfoldable pub read_number : ℕ → Bytes → ℕ → ℕ → Option (ℕ × ℕ)
read_number zero ram at n = none
read_number (suc fuel) ram at n =
    let rest = read_number fuel ram (at + 1) (n * 10 + (ram at - 48)) in
    if is_digit (ram at) then rest else some (n, at)

-- A conversion: its flags and width, and where its letter stands.
pub record Conversion : Type 0 where
  pub ladjust : Bool
  pub padc : ℕ
  pub width : ℕ
  pub long_flag : Bool
  pub at : ℕ

-- The `l` of a conversion.
abbrev pub read_long : Bytes → Bool → ℕ → ℕ → ℕ → Conversion
read_long ram ladjust padc width at = record {
  ladjust = ladjust;
  padc = padc;
  width = width;
  long_flag = ram at == 108;
  at = if ram at == 108 then at + 1 else at;
}

-- The precision, which is read and not used, and the rest.
abbrev pub read_after_width : ℕ → Bytes → Bool → ℕ → Option (ℕ × ℕ) → Option Conversion
read_after_width fuel ram ladjust padc none = none
read_after_width fuel ram ladjust padc (some (width, at)) =
    if ram at == 46
    then elim (read_number fuel ram (at + 1) 0) [
      | none ↦ none
      | some (prec, next) ↦ some (read_long ram ladjust padc width next)
    ]
    else some (read_long ram ladjust padc width at)

-- The conversion behind a '%', whose next character is at `at`.
unfoldable pub read_conversion : ℕ → Bytes → ℕ → Option Conversion
unfolding read_number
read_conversion fuel ram at =
    let ladjust = ram at == 45 in
    let flag = if ladjust then at + 1 else at in
    let zeros = ram flag == 48 in
    read_after_width fuel ram ladjust (if zeros then 48 else 32)
      (read_number fuel ram (if zeros then flag + 1 else flag) 0)

-- The cases of the switch on the letter.
pub data Kind : Type 0 where
  character : Kind
  decimal : Kind
  number : ℕ → Bool → Kind
  text : Kind
  last : Kind
  unknown : Kind

abbrev pub kind_of : ℕ → Kind
kind_of c =
    if c == 99
    then character
    else if c == 68 || c == 100
    then decimal
    else if c == 79 || c == 111
    then number 8 false
    else if c == 85 || c == 117
    then number 10 false
    else if c == 120
    then number 16 false
    else if c == 88
    then number 16 true
    else if c == 115
    then text
    else if c == 0
    then last
    else unknown

-- `num`, a signed `long`, as a word; an `int` is sign-extended.
abbrev pub argument : Bool → ℕ → ℕ
argument long_flag w =
    let low = w % 2 ^ 32 in
    if long_flag then w % 2 ^ 64 else if ltb low (2 ^ 31) then low else low + 2 ^ 64 - 2 ^ 32

abbrev pub is_negative : ℕ → Bool
is_negative w = leb (2 ^ 63) w

-- `if (num < 0) num = -num`
abbrev pub magnitude : ℕ → ℕ
magnitude w = if is_negative w then 2 ^ 64 - w else w

-- What `print` keeps: the output, `buf`, and how many arguments it took.
pub record Printing (S : Type 0) : Type 0 where
  pub out : S
  pub buf : Bytes
  pub taken : ℕ

module _ {S : Type 0} (put : S → ℕ → S) (direct : S → ℕ → Option S) (args : ℕ → ℕ) (ram : Bytes)
    (null_text : ℕ) where
  -- A character of a text, with '\r' before a '\n'.
  abbrev pub put_line : S → ℕ → S
  put_line s c = if c == 10 then put (put s 13) c else put s c

  -- `putString`, `appendString`
  unfoldable pub put_string : ℕ → S → Bytes → ℕ → Option S
  put_string zero s buf at = none
  put_string (suc fuel) s buf at =
      let rest = put_string fuel (put_line s (buf at)) buf (at + 1) in
      if buf at == 0 then some s else rest

  -- `printNum` or `printString` into `buf`, and `putString(buf)`.
  abbrev pub put_buffer : ℕ → Printing S → Option Bytes → Option (Printing S)
  put_buffer fuel st none = none
  put_buffer fuel st (some buf) = elim (put_string fuel st.out buf 0) [
    | none ↦ none
    | some out ↦ some (record { out = out; buf = buf; taken = st.taken + 1 })
  ]

  abbrev pub text_buffer : ℕ → Conversion → Printing S → ℕ → Option Bytes
  text_buffer fuel cv st s = elim (strlen_from fuel ram s 0) [
    | none ↦ none
    | some n ↦ some (print_string st.buf (λ i. ram (s + i)) n cv.width cv.ladjust)
  ]

  -- The switch.
  abbrev pub convert : ℕ → Conversion → Kind → ℕ → Printing S → Option (Printing S)
  convert fuel cv character letter st =
      let c = args st.taken % 256 in
      some (record {
        out = put st.out c;
        buf = print_char st.buf c cv.width cv.ladjust;
        taken = st.taken + 1;
      })
  convert fuel cv decimal letter st =
      let w = argument cv.long_flag (args st.taken) in
      put_buffer fuel st
        (print_num st.buf (magnitude w) 10 (is_negative w) cv.width cv.ladjust cv.padc false)
  convert fuel cv (number base upcase) letter st =
      let w = argument cv.long_flag (args st.taken) in
      put_buffer fuel st (print_num st.buf w base false cv.width cv.ladjust cv.padc upcase)
  convert fuel cv text letter st =
      let s = args st.taken in
      put_buffer fuel st (text_buffer fuel cv st (if s == 0 then null_text else s))
  convert fuel cv last letter st = some st
  convert fuel cv unknown letter st = elim (direct st.out letter) [
    | none ↦ none
    | some out ↦ some (record st { out = out })
  ]

  abbrev pub convert_at : ℕ → Conversion → Printing S → Option (Printing S)
  convert_at fuel cv st = convert fuel cv (kind_of (ram cv.at)) (ram cv.at) st

  -- The end of the text, or where the loop goes on, and its state there.
  pub data Round : Type 0 where
    done : Round
    next : ℕ → Printing S → Round
    stopped : Round

  -- `i--` under '\0' brings the loop back to the NUL.
  abbrev pub after : Conversion → Option (Printing S) → Round
  after cv none = stopped
  after cv (some st) = next (if ram cv.at == 0 then cv.at else cv.at + 1) st

  abbrev pub converted : ℕ → Option Conversion → Printing S → Round
  converted fuel none st = stopped
  converted fuel (some cv) st = after cv (convert_at fuel cv st)

  -- One round of the loop at `at`.
  unfoldable pub print_round : ℕ → ℕ → Printing S → Round
  unfolding put_string read_conversion
  print_round fuel at st =
      if ram at == 0
      then done
      else if not (ram at == 37)
      then next (at + 1) (record st { out = put_line st.out (ram at) })
      else converted fuel (read_conversion fuel ram (at + 1)) st

  unfoldable pub print : ℕ → ℕ → Printing S → Option (Printing S)
  unfolding print_round
  print zero at st = none
  print (suc fuel) at st = elim (print_round fuel at st) [
    | done ↦ some st
    | next at' st' ↦ print fuel at' st'
    | stopped ↦ none
  ]
