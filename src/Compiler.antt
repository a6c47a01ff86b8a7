-- ===== src/Compiler.antt =====
-- src/compiler/mod.rs: the compiler from the tree to the bytecode, by its parts.
pub mod State
pub mod Emit
pub mod Scope
pub mod Names
pub mod Forms
pub mod Terms
pub mod Flow
pub mod ForLoop
pub mod Rescue
pub mod Compile
pub mod Kept
pub mod EmitKept
pub mod JumpsKept
pub mod ScopeKept
pub mod NamesKept
pub mod FunctionKept
pub mod FormsKept
pub mod TermsKept
pub mod FlowKept
pub mod StmtsKept
pub mod MatchKept
pub mod LoopsKept
pub mod ForKept
pub mod TryKept
pub mod CompileKept
pub mod Ends
pub mod Upvalues
pub mod Examples
