-- ===== src/Strings.antt =====
-- kernel/utility/string.c: blocks of bytes and strings in memory. Pointers do not wrap, and
-- lengths are below 2 ^ 31, so that an `int` counts them.
pub mod Move
pub mod Compare
pub mod Bounds
use riem_os.Base.{
  ℕ, zero, suc, ◌+◌, ◌-◌, ◌*◌, ◌<◌, Bool, ◌&&◌, Option, none, some, ltb, ◌==◌, if◌then◌else◌,
}
use riem_os.Base.Int.{ℤ, pos, neg}
use riem_os.Memory.Ram.{Bytes, store8, copy_bytes}

-- The loop of `memset`, `n` bytes from `dst` on.
unfoldable pub memset : Bytes → ℕ → ℕ → ℕ → Bytes
unfolding store8
memset m dst c zero = m
memset m dst c (suc n) = memset (store8 m dst c) (dst + 1) c n

-- a - b
abbrev pub difference : ℕ → ℕ → ℤ
difference a b = if ltb a b then neg (b - a) else pos (a - b)

unfoldable pub memcmp : Bytes → ℕ → ℕ → ℕ → ℤ
memcmp m v1 v2 zero = pos 0
memcmp m v1 v2 (suc n) =
    let rest = memcmp m (v1 + 1) (v2 + 1) n in
    if m v1 == m v2 then rest else difference (m v1) (m v2)

-- while (n-- > 0) *--d = *--s; with `n` bytes in front of both pointers, which stand at `src + n`
-- and `dst + n`.
unfoldable pub copy_back : ℕ → Bytes → ℕ → ℕ → Bytes
unfolding store8
copy_back zero m src dst = m
copy_back (suc n) m src dst = copy_back n (store8 m (dst + n) (m (src + n))) src dst

unfoldable pub memmove : Bytes → ℕ → ℕ → ℕ → Bytes
unfolding copy_back copy_bytes
memmove m dst src n =
    if n == 0
    then m
    else if ltb src dst && ltb dst (src + n)
    then copy_back n m src dst
    else copy_bytes n m src dst

unfoldable pub memcpy : Bytes → ℕ → ℕ → ℕ → Bytes
unfolding memmove
memcpy m dst src n = memmove m dst src n

unfoldable pub strncmp : Bytes → ℕ → ℕ → ℕ → ℤ
strncmp m p q zero = pos 0
strncmp m p q (suc n) =
    let rest = strncmp m (p + 1) (q + 1) n in
    if m p == 0 then difference (m p) (m q) else if m p == m q then rest else difference (m p) (m q)

-- The loop of `strlen` on fuel, from count `n` on.
unfoldable pub strlen_from : ℕ → Bytes → ℕ → ℕ → Option ℕ
strlen_from zero m s n = none
strlen_from (suc fuel) m s n =
    let rest = strlen_from fuel m s (n + 1) in if m (s + n) == 0 then some n else rest

unfoldable pub strlen : ℕ → Bytes → ℕ → Option ℕ
unfolding strlen_from
strlen fuel m s = strlen_from fuel m s 0

-- while (n-- > 0) *s++ = 0;
unfoldable pub zero_rest : ℕ → Bytes → ℕ → Bytes
unfolding store8
zero_rest zero m s = m
zero_rest (suc n) m s = zero_rest n (store8 m s 0) (s + 1)

unfoldable pub strncpy : ℕ → Bytes → ℕ → ℕ → Bytes
unfolding zero_rest store8
strncpy zero m s t = m
strncpy (suc n) m s t =
    let put = store8 m s (m t) in
    let rest = strncpy n put (s + 1) (t + 1) in if put s == 0 then zero_rest n put (s + 1) else rest

-- The loop of `safestrcpy` with `*s = 0` behind it; `n` is what `n - 1` was before.
unfoldable pub safe_copy : ℕ → Bytes → ℕ → ℕ → Bytes
unfolding store8
safe_copy zero m s t = store8 m s 0
safe_copy (suc n) m s t =
    let put = store8 m s (m t) in
    let rest = safe_copy n put (s + 1) (t + 1) in if put s == 0 then store8 put (s + 1) 0 else rest

-- `n` that is not positive is 0.
unfoldable pub safestrcpy : Bytes → ℕ → ℕ → ℕ → Bytes
unfolding safe_copy
safestrcpy m s t zero = m
safestrcpy m s t (suc n) = safe_copy n m s t

-- The pointer, 0 if the character does not occur; `none`: the fuel ran out.
unfoldable pub strchr : ℕ → Bytes → ℕ → ℕ → Option ℕ
strchr zero m s c = none
strchr (suc fuel) m s c =
    let rest = strchr fuel m (s + 1) c in
    if m s == 0 then some 0 else if m s == c then some s else rest

-- `src` points to words of 16 bits, `len` is not negative.
unfoldable pub snstr : ℕ → Bytes → ℕ → ℕ → Bytes
unfolding zero_rest store8
snstr zero m dst src = m
snstr (suc len) m dst src =
    let rest = snstr len (store8 m dst (m src)) (dst + 1) (src + 2) in
    if m src + m (src + 1) * 256 == 0 then zero_rest len m dst else rest
