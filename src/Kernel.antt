-- ===== src/Kernel.antt =====
-- What the drivers call of the kernel, as parameters with their documented contracts.
pub mod Ledger
pub mod UserAccess
pub mod Splice
pub mod FullAccess
pub mod Words
