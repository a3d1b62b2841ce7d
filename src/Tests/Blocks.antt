-- ===== src/Tests/Blocks.antt =====
-- Blocks of bytes, in a memory that counts upwards from 1 to 0 and begins again.
use riem_os.Base.{ℕ, ◌+◌, ◌%◌, ◌<◌, ◌≡◌, ◌≢◌, ◌⊎◌, arith, leb, ltb, ◌&&◌, if◌then◌else◌}
use riem_os.Base.Int.{pos}
use riem_os.Memory.Ram.{Bytes}
use riem_os.Memory.Ram.Copy.{moved}
use riem_os.Strings.{memmove, memcmp, memset, difference}
use riem_os.Strings.Compare.{Agree, memcmp_lem}
use riem_os.Strings.Move.{memmove-moved, memset_lem}

abbrev counting : Bytes
counting p = (p + 1) % 256

-- The blocks overlap, the destination above the source.
memmove-moved_example : memmove counting 12 10 5 ≡ moved counting 10 12 5
memmove-moved_example = memmove-moved counting 12 10 5 (λ p. omega arith)

-- The blocks at 10 and at 266 agree, as far as they are compared.
memcmp_lem_example :
    (Agree counting 10 266 4 × (memcmp counting 10 266 4 ≡ pos 0))
    ⊎ ((i : ℕ) × (i < 4)
        × Agree counting 10 266 i
        × (counting (10 + i) ≢ counting (266 + i))
        × (memcmp counting 10 266 4 ≡ difference (counting (10 + i)) (counting (266 + i))))
memcmp_lem_example = memcmp_lem counting 10 266 4

memset_lem_example :
    memset counting 10 300 5 12 ≡ (if leb 10 12 && ltb 12 15 then 300 % 256 else counting 12)
memset_lem_example = memset_lem 5 counting 10 300 12
