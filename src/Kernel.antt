-- ===== src/Kernel.antt =====
-- The kernel: a module for each part of kernel/ that is modelled.
pub mod Riscv
pub mod Strings
pub mod Ring
pub mod Kalloc
pub mod Pipe
pub mod Console
pub mod Log
pub mod Locks
pub mod Proc
pub mod Vm
pub mod Fs
pub mod Bio
pub mod Printf
pub mod File
pub mod Virtio
pub mod Uart
pub mod Syscall
