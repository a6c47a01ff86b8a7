-- ===== src/Vm.antt =====
-- The bytecode virtual machine, src/vm.
pub mod Upvalue
pub mod Capture
pub mod Machine
pub mod Transact
pub mod Unwind
pub mod Balance
pub mod Retries
pub mod Commits
pub mod Rescue
pub mod Examples
pub mod Chunk
pub mod Encoding
