-- ===== src/Cs8900a.antt =====
-- The CS8900A Ethernet driver for the LPC-E2129 board: netif/cs8900a_lpc_e2129.c and the registers
-- of include/netif/cs8900a_regs.h.
pub mod Board
pub mod Regs
pub mod Access
pub mod Transmit
pub mod Receive
pub mod Start
pub mod Poll
pub mod Padded
mod ScriptBoard
mod Tests
mod PaddedTests
mod RoundTests
