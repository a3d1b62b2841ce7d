-- ===== src/Ulib.antt =====
-- user/lib/uLib.c: strings and blocks of bytes for user programs. Pointers do not wrap; a `char` is its
-- byte, and an `int` that is not negative is its value. Loops up to a NUL run on fuel.
pub mod Text
use riem_os.Base.{
  ℕ, zero, suc, ◌+◌, ◌-◌, ◌*◌, ◌%◌, ◌^◌, ◌<◌, Bool, ◌&&◌, Option, none, some, ltb, leb, ◌==◌,
  if◌then◌else◌,
}
use riem_os.Base.Int.{ℤ, pos, neg}
use riem_os.Memory.Ram.{Bytes, store8, copy_bytes}
use riem_os.Strings.{difference, copy_back}

-- while ((*s++ = *t++) != 0);
unfoldable pub strcpy : ℕ → Bytes → ℕ → ℕ → Option Bytes
unfolding store8
strcpy zero m s t = none
strcpy (suc fuel) m s t =
    let put = store8 m s (m t) in
    let rest = strcpy fuel put (s + 1) (t + 1) in if put s == 0 then some put else rest

unfoldable pub strcmp : ℕ → Bytes → ℕ → ℕ → Option ℤ
strcmp zero m p q = none
strcmp (suc fuel) m p q =
    let rest = strcmp fuel m (p + 1) (q + 1) in
    if m p == 0
    then some (difference (m p) (m q))
    else if m p == m q
    then rest
    else some (difference (m p) (m q))

-- The loop of `strlen`, from count `n` on.
unfoldable pub strlen_from : ℕ → Bytes → ℕ → ℕ → Option ℕ
strlen_from zero m s n = none
strlen_from (suc fuel) m s n =
    let rest = strlen_from fuel m s (n + 1) in if m (s + n) == 0 then some n else rest

unfoldable pub strlen : ℕ → Bytes → ℕ → Option ℕ
unfolding strlen_from
strlen fuel m s = strlen_from fuel m s 0

unfoldable pub memset : Bytes → ℕ → ℕ → ℕ → Bytes
unfolding store8
memset m dst c zero = m
memset m dst c (suc n) = memset (store8 m dst c) (dst + 1) c n

-- The pointer, 0 if the character does not occur; `none`: the fuel ran out.
unfoldable pub strchr : ℕ → Bytes → ℕ → ℕ → Option ℕ
strchr zero m s c = none
strchr (suc fuel) m s c =
    let rest = strchr fuel m (s + 1) c in
    if m s == 0 then some 0 else if m s == c then some s else rest

-- The loop of `atoi`, on the bits of its `int`.
unfoldable pub atoi_from : ℕ → Bytes → ℕ → ℕ → Option ℕ
atoi_from zero m s n = none
atoi_from (suc fuel) m s n =
    let rest = atoi_from fuel m (s + 1) ((n * 10 + m s - 48) % 2 ^ 32) in
    if leb 48 (m s) && leb (m s) 57 then rest else some n

unfoldable pub atoi : ℕ → Bytes → ℕ → Option ℕ
unfolding atoi_from
atoi fuel m s = atoi_from fuel m s 0

-- It copies upwards exactly if the source lies above.
unfoldable pub memmove : Bytes → ℕ → ℕ → ℕ → Bytes
unfolding copy_bytes copy_back
memmove m dst src n = if ltb dst src then copy_bytes n m src dst else copy_back n m src dst

unfoldable pub memcmp : Bytes → ℕ → ℕ → ℕ → ℤ
memcmp m s1 s2 zero = pos 0
memcmp m s1 s2 (suc n) =
    let rest = memcmp m (s1 + 1) (s2 + 1) n in
    if m s1 == m s2 then rest else difference (m s1) (m s2)

unfoldable pub memcpy : Bytes → ℕ → ℕ → ℕ → Bytes
unfolding memmove
memcpy m dst src n = memmove m dst src n
