-- ===== src/Print/Buffer.antt =====
-- The output buffer of user/include/printf.h, and `printf` of user/lib/printf.c on it. What the system
-- calls `putString` and `putchar` put out is a list of bytes.
use riem_os.Base.{
  ℕ, zero, suc, ◌+◌, ◌%◌, Option, none, some, List, [], ◌∷◌, ◌++◌, ltb, ◌==◌, if◌then◌else◌,
}
use riem_os.Memory.Ram.{Bytes, store8}
use riem_os.Print.Format.{Printing, print}

-- `printfBuffer`, `bufferLen`, and the bytes put out so far.
pub record Output : Type 0 where
  pub buffer : Bytes
  pub len : ℕ
  pub sent : List ℕ

abbrev pub buffer_max_len : ℕ
buffer_max_len = 128

-- The first `n` bytes of a buffer.
unfoldable pub first : ℕ → Bytes → List ℕ
first zero buffer = []
first (suc n) buffer = first n buffer ++ buffer n ∷ []

unfoldable pub clear_buffer : Output → Output
unfolding first
clear_buffer o =
    if ltb 0 o.len then record o { sent = o.sent ++ first o.len o.buffer; len = 0 } else o

unfoldable pub append_buffer : Output → ℕ → Output
unfolding clear_buffer store8
append_buffer o c =
    let stored = record o { buffer = store8 o.buffer o.len c; len = o.len + 1 } in
    if stored.len == buffer_max_len then clear_buffer stored else stored

-- `putchar` is the system call: it does not go through the buffer.
abbrev pub putchar : Output → ℕ → Option Output
putchar o c = some (record o { sent = o.sent ++ (c % 256) ∷ [] })

abbrev pub cleared : Option (Printing Output) → Option Output
cleared none = none
cleared (some st) = some (clear_buffer st.out)

unfoldable pub printf : ℕ → (ℕ → ℕ) → Bytes → ℕ → ℕ → Bytes → Output → Option Output
unfolding clear_buffer append_buffer print
printf fuel args ram null_text fmt buf o = cleared (
    print append_buffer putchar args ram null_text fuel fmt
      (record { out = o; buf = buf; taken = 0 }))
