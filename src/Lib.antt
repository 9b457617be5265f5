-- ===== src/Lib.antt =====
-- The labs of an operating-systems course: the allocator of lab 3, and of the xv6 kernel with the threads
-- of lab 5 the process table, the pipes, the file system, the open files, the cache of disk blocks, the
-- allocator of pages, spin locks, the arguments of system calls, memmove, safestrcpy, memcmp and strncmp,
-- some functions of the user library, and the matcher of grep.
--
-- The parts, and the files that model them
--
-- Base holds what the others share: C's int (Base/Int) and Boolean tests (Base/Tests) over the native
-- numbers, lists (Base/Lists), and the loop that looks for the first index with a property (Base/Search).
--
-- Mem is lab3/Malloc and Free/mem.c with mem.h. Mem.State holds its static variables and the mapped
-- region, an array of 64-bit words indexed by address divided by 8: a free block starts with a node (next,
-- previous, size), a block in use with a header (size, magic). mem_init, mem_alloc and mem_free are the C
-- functions, with first_fit, scan (best and worst fit), carve (the split) and neighbours, link_left and
-- link_right (the merging) as their parts. Mem/Blocks describes the region as a list of blocks that follow
-- each other without a gap, and Mem/Valid says when a state represents such a list: the free blocks are
-- the linked list, no two of them touch. The other files are about the steps: Mem/Search and Mem/Scan the
-- three styles, Mem/Alloc and Mem/Assemble the split, Mem/Free, Mem/Coalesce, Mem/Links and Mem/Release
-- the merging, Mem/Init the first call, Mem/RoundTrip an allocation and its release; Mem/Tests runs the
-- code.
--
-- Proc is lab5/xv6-thread/kernel/proc.c with proc.h. Kernel holds ptable, nextpid, initproc and the per-
-- processor variable proc (`current`); a pointer to a process is 0 or its index plus one. The rest of the
-- kernel, which proc.c calls (kalloc, kfree, copyuvm, freevm, allocuvm, deallocuvm, copyout, filedup,
-- fileclose, idup, iput, safestrcpy, setupkvm, inituvm, namei), is the parameter Services, on a state R of
-- its own, and no theorem assumes anything of it. Proc has allocproc, growproc, fork, clone, wakeup1 and
-- kill; Proc/Wait has wait, join, exit and sleep; Proc/Run has userinit, wakeup, yield and a round of
-- scheduler. A call that sleeps ends in the result `blocked` and is made again when the process runs.
-- Proc/Step is the kernel as a transition system: any order of these operations on one processor, where
-- fork, clone and exit can be interrupted wherever they do not hold the lock of the table. Proc/Table has
-- the invariant of the table, Proc/Keeps, Proc/Spawn, Proc/Gather and Proc/Safety are about the operations
-- and the invariant; Proc/Outcomes has the results of fork and clone, Proc/Scanning and Proc/Reaping those
-- of wait and join, Proc/Exit and Proc/Handover that of exit.
--
-- Pipe is lab5/xv6-thread/kernel/pipe.c: Pipe is struct pipe, and pipewrite, piperead and pipeclose are
-- the functions, with the channels they wake and, for a call that sleeps, the bytes that it has left. The
-- flag of the current process is an argument. Pipe/Queue has the bounded queue that a pipe stands for,
-- Pipe/Transfer and Pipe/RoundTrip what the calls do to it.
--
-- Grep is the matcher of lab5/xv6-thread/user/grep.c, match, matchhere and matchstar, on lists of
-- characters; Grep/Denotes has the language of the expressions as rules.
--
-- Strings is lab5/xv6-thread/kernel/string.c, of which it has memmove, safestrcpy, memcmp and strncmp, on
-- a memory that is a function of the 32-bit address; Strings/Move and Strings/Copy are about the first
-- two, Strings/Compare has the others.
--
-- Syscall is lab5/xv6-thread/kernel/syscall.c: fetchint, fetchstr, argint, argptr and argstr read the
-- memory of the process (User) at addresses that come from the user; Syscall/Bounds is about their tests.
--
-- Fs is lab5/xv6-thread/kernel/fs.c with include/fs.h and struct inode of kernel/file.h. A function on the
-- state (Fs: the blocks of the disks and the table icache) returns, panics, or sleeps on an inode that is
-- locked; bread and bwrite act on the disk directly, and the entries of devsw are parameters. Fs has
-- readsb, bzero, balloc and bfree, Fs/Inodes iget, idup, ialloc, iupdate, ilock and iunlock, Fs/Content
-- bmap, itrunc, iput, stati, readi and writei, Fs/Names namecmp, dirlookup, dirlink, skipelem and namex.
-- Fs/Bits, Fs/Alloc and Fs/Free are about the bitmap, Fs/Dinode and Fs/Restore about inodes on disk,
-- Fs/Cache about the table, Fs/Elements about skipelem. Fs/Twins, Fs/Whole, Fs/Paths and Fs/Steps are
-- about an invariant of the table.
--
-- File is lab5/xv6-thread/kernel/file.c, the table ftable on top of Pipe and Fs: filealloc, filedup,
-- fileclose, filestat, fileread and filewrite, and pipealloc of kernel/pipe.c, which gets from its
-- argument the page that kalloc returns. Files has the table, the pipes by the address of their page, and
-- the file system; the result `freed` is a use of a pipe whose page has been given back. Pipe/Ends is
-- about what the calls on a pipe do to its ends; File/Ends has the invariant of the table, File/Made,
-- File/Calls and File/Transfer are about it and the calls, and File/Steps has the calls as a transition
-- system.
--
-- Buffers is lab5/xv6-thread/kernel/bio.c: Cache has the buffers, the list of them as their numbers in the
-- order of use, and the disks. binit, bget, bread, bwrite and brelse are the functions, and iderw is that
-- of kernel/ide.c, with the request to the disk as one step; the lowest bit of the device selects the
-- drive, and the sector has 28 bits, as in idestart. Buffers/Order is about the list, Buffers/Clean has
-- the invariant, Buffers/Reads and Buffers/Writes relate the buffers to the disk, which is what Fs uses.
--
-- Pages is lab5/xv6-thread/kernel/kalloc.c: Ram has the bytes of the physical memory and kmem.freelist;
-- the links of the list are words in the free pages. kinit, kfree and kalloc are the functions, the
-- address of `end` their argument. Pages/Chain is about the list, Pages/Steps about runs in which pages
-- are handed out, written to and taken back, and Pages/Start about kinit.
--
-- Spin is lab5/xv6-thread/kernel/spinlock.c: a lock and the processors (Machine), where each of them is in
-- acquire or release (Place), and the steps that they take in any order (LockStep), xchg being one step;
-- pushcli and popcli are functions on struct cpu. Spin/Exclusion is about mutual exclusion and interrupts.
--
-- Ulib has strcmp, strchr, gets, atoi and thread_create of lab5/xv6-thread/user/ulib.c, with malloc and
-- clone as arguments, and printint of user/printf.c. A string is the list of its characters. Ulib/Numbers
-- is about atoi and printint, Ulib/Text about strcmp.
--
-- Shell has the tokens, the commands and nulterminate of lab5/xv6-thread/user/sh.c, where a pointer into
-- the line is what is left of the line, and Shell/Parse the parser, each of whose functions returns the
-- command and the rest. Shell/Reads, Shell/Words and Shell/Commands are about what the parser takes of a
-- line, Shell/Buffer and Shell/Strings about the buffer behind nulterminate. Shell/Grammar has the grammar
-- of the lines, a way to write them and the commands that they stand for; Shell/Parts, Shell/Arguments,
-- Shell/RoundTrip, Shell/Lines and Shell/Printed are about parsing what is written. Shell/Run is runcmd,
-- on the descriptors of kernel/sysfile.c, and the requests of main; Shell/Streams and Shell/Started are
-- about the programs that runcmd starts.
--
-- Vm has walkpgdir and mappages of lab5/xv6-thread/kernel/vm.c on the memory of Pages, and Vm/Space the
-- functions on address spaces: setupkvm, inituvm, loaduvm, allocuvm, deallocuvm, freevm, copyuvm, uva2ka
-- and copyout, with readi as an argument. An entry of a page table is a 32-bit word, and its flags are set
-- and tested bit by bit. Vm/Tables has the map of addresses that page tables stand for, beside the list of
-- free pages; Vm/Entries, Vm/Walk, Vm/Maps and Vm/Ranges are about walkpgdir and mappages on that map,
-- Vm/Access about uva2ka, and Vm/Fuel and Vm/Loops about the loops.
--
-- Bounds and fuel
--
-- The loops over the list of free blocks run on fuel: totsize + 1 rounds, which are enough since every
-- node takes at least 16 bytes of the region. The loops over the table run over its 64 slots, those of
-- pipes, strings and the matcher over the bytes and the characters, those of the file system over the
-- blocks of the bitmap, the inodes, the bytes to move, or the path. The conversions of int to size_t and
-- to unsigned int, and the sums of 32-bit words, are written out; the sizes given to mem_alloc are below
-- 2^31 - 8 where a theorem needs that. mmap and getpagesize are parameters. The parser of the shell runs
-- on four times the length of the line and four more, since one character of the line is taken in at most
-- four calls. The loop of mappages runs once for each page of its range; the loops of vm.c over a size
-- have a round for each page and two more, and that of copyout one for each byte and one more.
--
-- What is not modelled
--
-- mem_dump prints. Accesses outside the mapped region, the locks of the other files, interrupts and the
-- switch of contexts are left out, and so are the panics of sched and sleep, which report misuse of the
-- locks. Two processors at work on the table are left out. nextpid wraps around, and the invariant of the
-- table is shown while it does not. The disk drives are taken to report no error. mem_free is followed
-- where the header of its argument lies in the mapped region; for NULL the C code faults. pipewrite is
-- given a list of bytes, so that its count is not negative. A trap frame keeps the registers that proc.c
-- sets and a list of the others. In the file system, the cache of buffers is transparent, the processes
-- that sleep on an inode are not woken in the model, and a reference count is not dropped below 0. malloc,
-- fork and exec of the shell are taken to succeed. The registers of the processor that vm.c sets are left
-- out. The rest of xv6 (devices, the other system calls, the other programs), its earlier versions in lab2
-- and lab4, the programs of lab1 and the shell of lab2 are not modelled.
pub mod Base
pub mod Mem
pub mod Proc
pub mod Pipe
pub mod Grep
pub mod Strings
pub mod Syscall
pub mod Fs
pub mod File
pub mod Buffers
pub mod Pages
pub mod Spin
pub mod Ulib
pub mod Shell
pub mod Vm
