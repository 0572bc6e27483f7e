-- ===== src/Lib.antt =====
-- A verification library for the teaching kernel xv6 (RISC-V) of this repository. The kernel runs
-- processes over physical pages, page tables, a logged file system on one disk, pipes and a
-- console.
--
-- Parts and files. Kernel/Strings models kernel/string.c over memory as bytes; Kernel/Kalloc the
-- page allocator of kernel/kalloc.c, whose list runs through the free pages; Kernel/Ring the byte
-- rings with uint counters that Kernel/Pipe (kernel/pipe.c) and Kernel/Console (kernel/console.c)
-- share; Kernel/Bio the buffer cache of kernel/bio.c, a linked ring; Kernel/Log the redo log of
-- kernel/log.c; Kernel/Locks the locks of kernel/spinlock.c and kernel/sleeplock.c; Kernel/Proc the
-- process table of kernel/proc.c, with sleep, wakeup, kill, exit and wait; Kernel/Vm the page
-- tables of kernel/vm.c, in Vm/Space the user's part of them, with proc_pagetable,
-- proc_freepagetable and growproc of kernel/proc.c, and in Vm/Copy copyin, copyout and copyinstr;
-- Kernel/Fs the file system of kernel/fs.c: the block bitmap, in Fs/Inodes the inodes, in
-- Fs/Content readi and writei, in Fs/Dir directories and in Fs/Names paths; Kernel/File the open
-- files of kernel/file.c and pipealloc, over the pipes, the page allocator and the file system,
-- with the system calls of kernel/sysfile.c in File/Calls and File/Open; Kernel/Printf the
-- formatted output of kernel/printf.c; Kernel/Uart the transmit buffer of kernel/uart.c, with
-- consolewrite of kernel/console.c; Kernel/Virtio the disk requests of kernel/virtio_disk.c;
-- Kernel/Syscall kernel/syscall.c, with sbrk and sleep of kernel/sysproc.c. User/Grep models the
-- matcher of user/grep.c, User/Ulib user/ulib.c and User/Printf user/printf.c. Kernel/Riscv has the
-- numbers of kernel/riscv.h and kernel/memlayout.h, and Prelude the notation, lists, memory and
-- outcomes that all parts share.
--
-- State and operations. A C struct is a record without its lock; a function that changes it returns
-- the new record; one that may call panic returns an Outcome. What runs under a spinlock is one
-- step, and code that sleeps returns at the sleep, to go on by another call (a stretch). Pointers
-- are addresses, null is 0, uint counters wrap at 2 ^ 32, and `char` is unsigned as on RISC-V. To
-- pipe, console and files, user memory is what copyin and copyout answer at an address, as
-- parameters, as is what a device answers when its registers are read. A page table lies in
-- physical memory, whose bytes are the state of Kernel/Vm together with the free list. The file
-- system's state is the log, the buffers, the superblock and the table of inodes; the lock of an
-- inode is had when ilock returns.
--
-- The state of Kernel/File is the table of open files, the descriptors and the directory of the one
-- process that runs, the pipes by address, the free pages and the file system. A call that would
-- sleep in begin_op is `blocked`. Output is the list of bytes that is handed on.
--
-- The process table is a function from slots; each step of Kernel/Proc/Steps is what runs under
-- wait_lock or under one p->lock, and a run is any sequence of steps. The table holds no open
-- files, names or contexts.
--
-- Fuel. Loops recur on the rounds that the C code counts. Where it does not count, fuel is given:
-- freerange has a round for each page below its end, Control-U one for each byte of the edited
-- line, and strlen takes its fuel as an argument. uvmalloc and uvmcopy have a round for each page
-- of the size and one more, freewalk goes down the three levels, the copying loops have a round for
-- each byte, balloc for each block of the bitmap, dirlookup and isdirempty for each entry, bget for
-- each buffer, filewrite for each byte, the digits of a number one for each bit, uartstart for each
-- byte of its buffer, free_chain for each descriptor and one more, and namex for each byte of the
-- path and one more.
--
-- The log and the file system see the buffer cache not as the ring of Kernel/Bio but as the
-- contents that bread returns, the pins, and the order of the disk writes; a crash keeps an older
-- part of that order. There is one device, except in Kernel/Bio.
--
-- Not modelled: device registers and assembly, and the parts of the kernel that have no file here.
-- The addresses of `end` (kernel.ld), proc[] and the trampoline are parameters.
pub mod Prelude
pub mod Kernel
pub mod User
