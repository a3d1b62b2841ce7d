-- ===== src/Memory/Ram.antt =====
-- Physical memory as bytes, and the loops of `bzero` and `bcopy` of kernel/memory/memory.c.
-- Addresses do not wrap: a block ends below 2 ^ 64.
pub mod Words
pub mod Loops
pub mod Copy
use riem_os.Base.{
  ℕ, zero, suc, ◌+◌, ◌*◌, ◌/◌, ◌%◌, ◌^◌, Bool, if◌then◌else◌, ◌==◌, update, ◌&&◌, not, leb, ltb,
}

abbrev pub Bytes : Type 0
Bytes = ℕ → ℕ

-- `*(u_char *)p = v`
unfoldable pub store8 : Bytes → ℕ → ℕ → Bytes
store8 m p v = update m p (v % 256)

-- `*(u_int *)p`, little endian
unfoldable pub load32 : Bytes → ℕ → ℕ
load32 m p = m p + m (p + 1) * 2 ^ 8 + m (p + 2) * 2 ^ 16 + m (p + 3) * 2 ^ 24

-- `*(u_int *)p = v`
unfoldable pub store32 : Bytes → ℕ → ℕ → Bytes
unfolding store8
store32 m p v =
    store8 (store8 (store8 (store8 m p v) (p + 1) (v / 2 ^ 8)) (p + 2) (v / 2 ^ 16)) (p + 3)
      (v / 2 ^ 24)

-- `*(u_longlong *)p`
unfoldable pub load64 : Bytes → ℕ → ℕ
unfolding load32
load64 m p = load32 m p + load32 m (p + 4) * 2 ^ 32

-- `*(u_longlong *)p = v`
unfoldable pub store64 : Bytes → ℕ → ℕ → Bytes
unfolding store32
store64 m p v = store32 (store32 m p v) (p + 4) (v / 2 ^ 32)

-- A loop's memory, its pointer and the bytes left, `max - start`.
pub record Span : Type 0 where
  pub ram : Bytes
  pub at : ℕ
  pub left : ℕ

-- while ((start & 3) && start < max) *(u_char *)start++ = 0;
unfoldable pub zero_head : ℕ → Bytes → ℕ → Span
unfolding store8
zero_head zero m p = record { ram = m; at = p; left = 0 }
zero_head (suc n) m p =
    let rest = zero_head n (store8 m p 0) (p + 1) in
    if p % 4 == 0 then record { ram = m; at = p; left = suc n } else rest

-- while (start + 4 <= max) { *(u_int *)start = 0; start += 4; }
unfoldable pub zero_words : ℕ → Bytes → ℕ → Span
unfolding store32
zero_words (suc (suc (suc (suc n)))) m p = zero_words n (store32 m p 0) (p + 4)
zero_words n m p = record { ram = m; at = p; left = n }

-- while (start < max) *(u_char *)start++ = 0;
unfoldable pub zero_bytes : ℕ → Bytes → ℕ → Bytes
unfolding store8
zero_bytes zero m p = m
zero_bytes (suc n) m p = zero_bytes n (store8 m p 0) (p + 1)

unfoldable pub bzero : Bytes → ℕ → ℕ → Bytes
unfolding zero_head zero_words zero_bytes
bzero m start len =
    let head = zero_head len m start in
    let words = zero_words head.left head.ram head.at in zero_bytes words.left words.ram words.at

-- What `bzero` is for: the block [p, p + n) is zero, and nothing else changes.
abbrev pub zeroed : Bytes → ℕ → ℕ → Bytes
zeroed m p n q = if leb p q && ltb q (p + n) then 0 else m q

-- while (dst < max) *(char *)dst++ = *(char *)src++;
unfoldable pub copy_bytes : ℕ → Bytes → ℕ → ℕ → Bytes
unfolding store8
copy_bytes zero m src dst = m
copy_bytes (suc n) m src dst = copy_bytes n (store8 m dst (m src)) (src + 1) (dst + 1)

-- A copying loop's memory, its two pointers and the bytes left, `max - dst`.
pub record Copying : Type 0 where
  pub ram : Bytes
  pub src : ℕ
  pub dst : ℕ
  pub left : ℕ

-- while ((dst & 3) && dst < max) *(char *)dst++ = *(char *)src++;
unfoldable pub copy_head : ℕ → Bytes → ℕ → ℕ → Copying
unfolding store8
copy_head zero m src dst = record { ram = m; src = src; dst = dst; left = 0 }
copy_head (suc n) m src dst =
    let rest = copy_head n (store8 m dst (m src)) (src + 1) (dst + 1) in
    if dst % 4 == 0 then record { ram = m; src = src; dst = dst; left = suc n } else rest

-- while (dst + 4 <= max) { *(u_int *)dst = *(u_int *)src; dst += 4; src += 4; }
unfoldable pub copy_words : ℕ → Bytes → ℕ → ℕ → Copying
unfolding store32 load32
copy_words (suc (suc (suc (suc n)))) m src dst =
    copy_words n (store32 m dst (load32 m src)) (src + 4) (dst + 4)
copy_words n m src dst = record { ram = m; src = src; dst = dst; left = n }

unfoldable pub bcopy : Bytes → ℕ → ℕ → ℕ → Bytes
unfolding copy_bytes copy_head copy_words
bcopy m src dst len =
    let head = copy_head len m src dst in
    let words = copy_words head.left head.ram head.src head.dst in
    if not (src % 4 == dst % 4)
    then copy_bytes len m src dst
    else copy_bytes words.left words.ram words.src words.dst
