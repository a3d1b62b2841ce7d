-- ===== src/Tests.antt =====
-- The theorems at concrete inputs, and runs of the functions.
mod Files
mod Queues
mod Memories
mod Processes
mod Syscalls
mod Blocks
mod Kernels
mod Texts
