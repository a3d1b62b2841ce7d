-- ===== src/Lib.antt =====
-- RiemOS is a small RISC-V kernel with user-level servers. This library models parts of the kernel
-- and of the library of user programs, and proves what makes them correct.
--
-- How the parts stand together. include/queue.h links the free pages, the free processes and the
-- schedule list. kernel/memory/memory.c hands out physical pages from the list of free pages and
-- builds three-level page tables in them. kernel/trap/process.c keeps the process table and switches
-- between processes in the order of the schedule list. kernel/trap/syscall.c is what processes see of
-- both: they map and unmap pages and send messages to each other. kernel/trap/trap.c calls all of it:
-- it serves the page faults and dispatches the system calls. kernel/trap/elfLoader.c reads a program
-- image and has process.c map its segments. User programs print through a buffer that they send with
-- a system call, with the same format loop as the kernel's. The file server, fs/fs.c and
-- fs/server.c, keeps the blocks of the disk in its memory and answers the messages of its clients.
--
-- Files and code:
--   Base        Boolean tests on numbers, lists, machine words; the helpers that all parts share.
--   Queue       include/queue.h. A list head and the link fields of all elements are one `Lists`;
--               LIST_INSERT_HEAD is `insert_head`, LIST_INSERT_AFTER `insert_after`,
--               LIST_INSERT_BEFORE `insert_before`, LIST_INSERT_TAIL `insert_tail`, LIST_REMOVE
--               `unlink`. Queue/Chain says when the pointers spell a sequence.
--   Memory      kernel/memory/memory.c with include/memory.h and include/memConfig.h. `Mem` holds
--               the bytes of memory, freePages with its links, and pages[i].ref. Functions keep
--               their names. Memory/Ram has loads, stores, bzero and bcopy, Memory/Pte the packing of
--               page table entries. Memory/Tree says when page tables form a tree, whose leaves may
--               map the tables themselves, as initPgdir does; Memory/Walk defines the translation of an address space; Insert, Remove, Lookup and Pages
--               are about one operation each. Memory/Map has the address spaces (initPgdir,
--               pgdir_free) and the page faults (pageout, cowHandler), Memory/User vir2phy and
--               Memory/Across copyin, copyout and either_copyin of process.c.
--   Process     kernel/trap/process.c with include/process.h. `Kernel` holds the globals; functions
--               keep their names in small letters. Process/Create has process_setup, process_alloc,
--               process_free and process_destory, Process/Load codeMapper and
--               processCreatePriority, Process/Fork process_fork. Process/Alloc is about
--               process_alloc.
--   Elf         kernel/trap/elfLoader.c with include/elf.h. The mapper is a parameter.
--   Trap        kernel/trap/trap.c, the table of system calls, syscallFork, syscallExit and
--               syscallGetProcessPcb. Faults is about page faults.
--   Strings     kernel/utility/string.c, on the bytes of memory.
--   Ulib        user/lib/uLib.c, likewise.
--   Print       user/lib/printf.c: printNum, printChar and printString. Print/Format is the loop
--               `print`, which kernel/driver/print.c has too; where the characters go is a
--               parameter. Print/Buffer is the buffer of user/include/printf.h and `printf`.
--   Pipe        user/lib/pipe.c: piperead and pipewrite. What other processes do while one gives
--               way, and the counts that the kernel reports, are parameters.
--   Fs          fs/fs.c and fs/ide.c, on the record `Server` of the globals and `Os`, the server's
--               memory and system calls, whose laws are `IsLawful`. Fs/Blocks has the blocks and the
--               bitmap, Fs/Nodes the nodes of files and directories, Fs/Files paths and whole files;
--               functions keep their names. Free is about the bitmap, Lookup about dir_lookup,
--               Truncate about file_truncate.
--   Fs/Serve    fs/server.c. Opens is about the table of open files.
--   Ipc         user/lib/ipc.c and user/lib/fsipc.c, on the same `Os`.
--   Fd          user/lib/fd.c, on the same `Os`; the devices and `open` are parameters.
--   Syscall     kernel/trap/syscall.c. A call takes the kernel with the caller's registers in the
--               trap frame and returns the kernel, or `none` where it follows NULL or the scheduler
--               does not end. Ipc and Alloc are about messages and syscallMemoryAlloc.
--   Tests       the theorems at concrete inputs, and runs.
--
-- Conventions. A pointer into an array is the index, NULL is `none`, or 0 for an address. Words wrap
-- as in C: `% 2 ^ w` is written out. Addresses do not wrap: no block ends above 2 ^ 64. An error code
-- -E is `neg E`. Functions that store through a pointer return what they store. An uninitialised
-- local is a parameter (`stale` of `page_remove`). Output to the console, sfence_vma and the control
-- registers are left out.
--
-- Loops. The loops of bzero, bcopy and page_walk recur on the bytes or levels left. The loops of
-- LIST_INSERT_TAIL and process_yield run on fuel: the length of the list is enough for the first,
-- one more than the number of processes asked for the second. strlen runs on fuel, for which more
-- than the length is enough, and so do the other loops over text. copyin and copyout
-- take at least one byte a round: fuel above the length is enough. codeMapper runs on fuel likewise. Reading and writing a pipe take
-- a round for each byte and for each time they give way. The loops of the file system over blocks
-- and nodes take the number of rounds that the code computes; fs_sync, ipc_send and the loops along
-- a path run on fuel, and a run whose fuel ends counts as one that does not come back. The digits
-- of printNum take 64, since a word has no more. process_yield takes 1024 as fuel for the list, the
-- number of processes. The loop that waits for an empty schedule list does not end.
--
-- Not modelled: control registers, sfence_vma, the clock and assembly; the console, the card and
-- the system calls that drive them, which the table of calls takes as a parameter; opening pipes
-- and files in the user library, and the host tools. The system calls of the file server are an
-- interface: that the kernel's calls keep its laws is not proved. A store of the
-- server does not check that its page may be written. The fixed sizes of the buffers
-- that printNum and printString write to are not modelled: widths must fit.
pub mod Base
pub mod Queue
pub mod Memory
pub mod Process
pub mod Elf
pub mod Strings
pub mod Ulib
pub mod Print
pub mod Pipe
pub mod Fs
pub mod Ipc
pub mod Fd
pub mod Syscall
pub mod Trap
mod Tests
