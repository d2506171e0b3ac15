-- ===== src/Lib.antt =====
-- xv6-riscv with the mmap lab: a Unix-like operating system in C, its kernel in kernel/ and its user
-- programs in user/. Processes call the kernel through kernel/syscall.c; file descriptors
-- (kernel/sysfile.c, kernel/file.c) lead to pipes, to the console and to inodes; the file system
-- writes through a redo log (kernel/log.c) over a cache of disk blocks (kernel/bio.c); mmap places
-- files in the memory of a process, and loads and writes back their pages.
--
-- Which file models what:
--   Prelude          Boolean tests, lists, arrays as functions, and the results of kernel routines
--   Kernel/Log       kernel/log.c: begin_op, log_write, end_op, commit and the recovery, on a disk that
--                    may fail after any write
--   Kernel/Fs        kernel/fs.c: balloc and bfree on the bitmap; Inode: bmap, readi, writei, iupdate;
--                    Trunc: itrunc; Table: iget, idup, ilock, iunlock, iput. The panics of log_write
--                    are in the model of writei alone, which tests its calls of it at its end
--   Kernel/Vm        kernel/vm.c: walk and mappages on the three levels of a page table
--   Kernel/Buffers   kernel/bio.c: binit, bget and brelse on the list of the buffers
--   Kernel/File      kernel/file.c, kernel/sysfile.c: the file table, descriptors, dup and close
--   Kernel/Pipe      kernel/pipe.c: the ring of bytes, pipewrite, piperead and pipeclose
--   Kernel/Vma       kernel/proc.h: struct vm_area
--   Kernel/Mmap      kernel/sysfile.c: sys_mmap; Unmap: sys_munmap, clear_vm_area, write_back and
--                    put_back; Fault: mmap_load_instr, on the user pages of one process
--   Kernel/Proc      kernel/proc.c: allocpid, allocproc, freeproc, wakeup, kill, reparent and the scan of
--                    wait, on the process table
--   Kernel/Fork      kernel/proc.c: fork, and how exit closes files
--   Kernel/Uart      kernel/uart.c: the ring of characters to send
--   Kernel/Locks     kernel/spinlock.c and kernel/sleeplock.c: acquire, release, push_off and pop_off
--   Kernel/Console   kernel/console.c: the line editor consoleintr, and consoleread
--   Kernel/Pages     kernel/kalloc.c: the free list of physical pages
--   Kernel/Strings   kernel/string.c
--   User/Grep        user/grep.c: the matcher
--   User/Sh          user/sh.c: the tokens, the parser and nulterminate
--
-- In Kernel/Log/Reserve end_op is two steps with the commit as a step between them, so that other calls
-- see log.committing.
--
-- A struct is a record, an int or uint is a natural number with its wrap-around written out, a pointer
-- into a table is an index. A stretch of code under a spin lock is one step; a call of sleep ends a
-- step, and the next run goes on from the state that it left. A panic is a value (Outcome), and
-- Returns says that a routine does not panic and what its result is. Loops are structural recursion
-- on the rounds that are left, which the code's own bounds give: the bytes left in pipewrite, the
-- pages of a range in put_back, the characters edited in the kill key's loop. Only strlen has fuel,
-- and any fuel larger than the string's length gives its result.
--
-- Parameters stand for user memory (copyin, copyout; in Kernel/Fs/Inode the number of bytes that can
-- be read or written from an address on), for the inode layer under mmap (the size of an inode,
-- writei and readi), and for whether memory for page tables is there.
--
-- Kernel/Fs works on one disk, with the buffers of the cache as the blocks that they hold. The parser
-- in User/Sh has rounds for its loops and its recursion: each round and each nested call moves on in
-- the line, so that one more than the length of the line is enough for all of them.
--
-- Not modelled: ialloc, the directories and path names of kernel/fs.c; the rest of kernel/vm.c
-- on three levels of page tables; exec, the rest of exit, and the scheduler; the interleaving of CPUs inside a lock;
-- device registers; runcmd in user/sh.c and the other user programs; tests; mkfs.
pub mod Prelude
pub mod Kernel
pub mod User
