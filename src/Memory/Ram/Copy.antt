-- ===== src/Memory/Ram/Copy.antt =====
-- `bcopy` of kernel/memory/memory.c copies as the byte loop does.
use mathlib.Core.Path.{fun_ext}
use riem_os.Base.{
  ℕ, zero, suc, ◌+◌, ◌-◌, ◌*◌, ◌/◌, ◌^◌, ◌%◌, ◌≤◌, ◌<◌, ◌≡◌, refl, ◌∙◌, sym, ap, ◌⊎◌, inl, inr,
  arith, ◌==◌, if◌then◌else◌, ltb, leb, ◌&&◌, Bool-cases,
}
use riem_os.Memory.Ram.{
  Bytes, Copying, store8, store32, load32, copy_bytes, copy_head, copy_words, bcopy,
}

-- Every cell holds a byte.
abbrev pub IsBytes : Bytes → Type 0
IsBytes m = (p : ℕ) → m p < 256

pub store8-IsBytes : (m : Bytes) (p v : ℕ) → IsBytes m → IsBytes (store8 m p v)
unfolding store8
store8-IsBytes m p v h q = ground (arith, h q)

-- One word is four bytes, where source and destination are congruent.
abbrev four_bytes : Bytes → ℕ → ℕ → Bytes
four_bytes m src dst =
    let m1 = store8 m dst (m src) in
    let m2 = store8 m1 (dst + 1) (m1 (src + 1)) in
    let m3 = store8 m2 (dst + 2) (m2 (src + 2)) in store8 m3 (dst + 3) (m3 (src + 3))

byte_of_word :
    (a b c d : ℕ)
    → a < 256
    → b < 256
    → c < 256
    → d < 256
    → let w = a + b * 2 ^ 8 + c * 2 ^ 16 + d * 2 ^ 24 in
      (w % 256 ≡ a) × (w / 2 ^ 8 % 256 ≡ b) × (w / 2 ^ 16 % 256 ≡ c) × (w / 2 ^ 24 % 256 ≡ d)
byte_of_word a b c d ha hb hc hd = omega arith

word_step :
    (m : Bytes) (src dst : ℕ)
    → IsBytes m
    → src % 4 ≡ dst % 4
    → store32 m dst (load32 m src) ≡ four_bytes m src dst
unfolding store32 load32 store8
word_step m src dst h e = fun_ext λ q. ground (
  arith,
  byte_of_word (m src) (m (src + 1)) (m (src + 2)) (m (src + 3)),
  h src,
  h (src + 1),
  h (src + 2),
  h (src + 3),
)

copy_bytes-four :
    (n : ℕ) (m : Bytes) (src dst : ℕ)
    → copy_bytes (suc (suc (suc (suc n)))) m src dst
      ≡ copy_bytes n (four_bytes m src dst) (src + 4) (dst + 4)
unfolding copy_bytes
copy_bytes-four n m src dst =
    λ i. steps (two src i) (two dst i) (three src i) (three dst i) (four src i) (four dst i)
  where
    two : (x : ℕ) → x + 1 + 1 ≡ x + 2
    two x = omega arith

    three : (x : ℕ) → x + 1 + 1 + 1 ≡ x + 3
    three x = omega arith

    four : (x : ℕ) → x + 1 + 1 + 1 + 1 ≡ x + 4
    four x = omega arith

    steps : ℕ → ℕ → ℕ → ℕ → ℕ → ℕ → Bytes
    steps s2 d2 s3 d3 s4 d4 =
        let m1 = store8 m dst (m src) in
        let m2 = store8 m1 (dst + 1) (m1 (src + 1)) in
        let m3 = store8 m2 d2 (m2 s2) in copy_bytes n (store8 m3 d3 (m3 s3)) s4 d4

four_bytes-IsBytes : (m : Bytes) (src dst : ℕ) → IsBytes m → IsBytes (four_bytes m src dst)
four_bytes-IsBytes m src dst h =
    store8-IsBytes _ _ _
      (store8-IsBytes _ _ _ (store8-IsBytes _ _ _ (store8-IsBytes m dst (m src) h)))

-- What a loop leaves to copy, copied byte by byte.
abbrev rest_copied : Copying → Bytes
rest_copied c = copy_bytes c.left c.ram c.src c.dst

copy_words-rest :
    (n : ℕ) (m : Bytes) (src dst : ℕ)
    → IsBytes m
    → src % 4 ≡ dst % 4
    → rest_copied (copy_words n m src dst) ≡ copy_bytes n m src dst
unfolding copy_words
copy_words-rest zero m src dst h e = refl
copy_words-rest (suc zero) m src dst h e = refl
copy_words-rest (suc (suc zero)) m src dst h e = refl
copy_words-rest (suc (suc (suc zero))) m src dst h e = refl
copy_words-rest (suc (suc (suc (suc n)))) m src dst h e =
    ap (λ r. rest_copied (copy_words n r (src + 4) (dst + 4))) (word_step m src dst h e)
    ∙ copy_words-rest n (four_bytes m src dst) (src + 4) (dst + 4) (four_bytes-IsBytes m src dst h)
        (omega arith)
    ∙ sym (copy_bytes-four n m src dst)

-- The loop that aligns the pointers keeps their congruence and the bytes.
record HeadDone (n : ℕ) (m : Bytes) (src dst : ℕ) (c : Copying) : Type 0 where
  same : rest_copied c ≡ copy_bytes n m src dst
  congruent : src % 4 ≡ dst % 4 → c.src % 4 ≡ c.dst % 4
  bytes : IsBytes m → IsBytes c.ram

copy_head-HeadDone :
    (n : ℕ) (m : Bytes) (src dst : ℕ) → HeadDone n m src dst (copy_head n m src dst)
unfolding copy_head copy_bytes
copy_head-HeadDone zero m src dst = record { same = refl; congruent = λ e. e; bytes = λ h. h }
copy_head-HeadDone (suc n) m src dst = elim (Bool-cases (dst % 4 == 0)) [
  | inl aligned ↦ rw aligned (record { same = refl; congruent = λ e. e; bytes = λ h. h })
  | inr not_aligned ↦
      let next = copy_head-HeadDone n (store8 m dst (m src)) (src + 1) (dst + 1) in
      rw not_aligned (record {
        same = next.same;
        congruent = λ e. next.congruent (omega arith);
        bytes = λ h. next.bytes (store8-IsBytes m dst (m src) h);
      })
]

-- In a memory of bytes, `bcopy` comes to its byte loop for every source, destination and length,
-- overlapping blocks included: the words that it copies where the two addresses are congruent
-- modulo 4 change nothing.
pub bcopy-copy_bytes :
    (m : Bytes) (src dst len : ℕ) → IsBytes m → bcopy m src dst len ≡ copy_bytes len m src dst
unfolding bcopy
bcopy-copy_bytes m src dst len h = elim (Bool-cases (src % 4 == dst % 4)) [
  | inr apart ↦ rw apart refl
  | inl congruent ↦
      let done = copy_head-HeadDone len m src dst in
      rw congruent (
        copy_words-rest (copy_head len m src dst).left (copy_head len m src dst).ram
          (copy_head len m src dst).src (copy_head len m src dst).dst (done.bytes h)
          (done.congruent (ground arith))
        ∙ done.same)
]

-- The block [dst, dst + n) holds what [src, src + n) held before, and nothing else has changed.
abbrev pub moved : Bytes → ℕ → ℕ → ℕ → Bytes
moved m src dst n q = if leb dst q && ltb q (dst + n) then m (src + (q - dst)) else m q

-- In a memory of bytes, a byte loop that runs upwards moves a block that does not reach below its
-- destination.
pub copy_bytes-moved :
    (n : ℕ) (m : Bytes) (src dst : ℕ)
    → IsBytes m
    → (dst ≤ src) ⊎ (src + n ≤ dst)
    → copy_bytes n m src dst ≡ moved m src dst n
unfolding copy_bytes store8
copy_bytes-moved zero m src dst h e = fun_ext λ q. ground arith
copy_bytes-moved (suc n) m src dst h e =
    copy_bytes-moved n (store8 m dst (m src)) (src + 1) (dst + 1) (store8-IsBytes m dst (m src) h)
      (omega arith)
    ∙ fun_ext λ q. step q
  where
    step :
        (q : ℕ) → moved (store8 m dst (m src)) (src + 1) (dst + 1) n q ≡ moved m src dst (suc n) q
    step q = ground (arith, h src, first, later)
      where
        first : q ≡ dst → m (src + (q - dst)) ≡ m src
        first e = ap m (omega arith)

        later : dst < q → m (src + 1 + (q - (dst + 1))) ≡ m (src + (q - dst))
        later e = ap m (omega arith)
