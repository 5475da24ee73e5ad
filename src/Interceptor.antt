-- ===== src/Interceptor.antt =====
-- A1/interceptor.c: a kernel module that hooks the system call table and monitors processes.
pub mod Kernel
pub mod Pids
pub mod Syscall
pub mod Module
pub mod Invariant
pub mod Entries
pub mod Runs
pub mod Calls
pub mod Loops
pub mod Lifecycle
pub mod Monitor
pub mod Reach
mod Tests
