-- ===== src/SysArch.antt =====
-- The port of lwIP's system layer to Pico]OS, sys_arch.c: semaphores, mutexes, mailboxes, threads,
-- time and random numbers.
pub mod Nano
pub mod Time
pub mod Sync
pub mod Handles
pub mod Mbox
mod Kernel
mod Tests
mod MboxTests
