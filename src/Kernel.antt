-- ===== src/Kernel.antt =====
-- The kernel (kernel/): one module for each part.
pub mod Strings
pub mod Console
pub mod Pages
pub mod Fork
pub mod Uart
pub mod Locks
pub mod Fs
pub mod Vm
pub mod Log
pub mod Buffers
pub mod File
pub mod Pipe
pub mod Vma
pub mod Proc
pub mod Mmap
