-- ===== src/Tests/Kernels.antt =====
-- A kernel with one free process, 9, and the pages of the tests of system calls.
use riem_os.Base.{ℕ, refl, none, Option, [], ◌∷◌, arith}
use riem_os.Queue.{insert_head}
use riem_os.Queue.Chain.{IsList}
use riem_os.Queue.Insert.{insert_head-cons}
use riem_os.Process.{Kernel}
use riem_os.Process.Create.{Image, process_alloc}
use riem_os.Process.Alloc.{IsAlloc, process_alloc-IsAlloc}
use riem_os.Process.Fork.{process_fork}
use riem_os.Process.Fork.Child.{IsFork, process_fork-IsFork}
use riem_os.Trap.{TrapImage, user_trap}
use riem_os.Tests.Syscalls.{unlinked, pool-IsList, one_to_one, receiving, scheduled-IsList}

abbrev kernel : Kernel
kernel = record receiving { free_processes = insert_head unlinked 9 }

nine-IsList : IsList kernel.free_processes (9 ∷ [])
nine-IsList = insert_head-cons unlinked [] 9 (record { chain = refl; distinct = tt }) refl

abbrev image : Image
image = record {
  symbols = record { kernel_start = 0x80200000; text_end = 0x80210000; trampoline = 0x8020f000 };
  stale = 0;
  kernel_pgdir = 0x80300000;
  null_pa = 0x80000000;
}

process_alloc-IsAlloc_example :
    IsAlloc kernel 2051 (9 ∷ []) (1 ∷ 2 ∷ []) (process_alloc image kernel 2051)
process_alloc-IsAlloc_example =
    process_alloc-IsAlloc image kernel 2051 (9 ∷ []) (1 ∷ 2 ∷ []) nine-IsList pool-IsList
      (λ p h. ground arith) (omega arith)

process_fork-IsFork_example :
    IsFork kernel 3 (9 ∷ []) (1 ∷ 2 ∷ []) (4 ∷ 7 ∷ []) (process_fork image kernel)
process_fork-IsFork_example =
    process_fork-IsFork image kernel 3 (9 ∷ []) (1 ∷ 2 ∷ []) (4 ∷ 7 ∷ []) refl nine-IsList
      pool-IsList scheduled-IsList (omega arith) refl (λ p h. (ground arith, ground arith))
      (omega arith)

abbrev trap_image : TrapImage
trap_image = record {
  image = image;
  cow_buffer = 0x80320000;
  user_trap = 0x80201000;
  processes = 0x80330000;
  process_size = 360;
}

abbrev no_device : ℕ → Kernel → Option Kernel
no_device n k = none

-- The directory of process 3 maps its own page.
abbrev faulting : Kernel
faulting = record kernel { mem = one_to_one }
