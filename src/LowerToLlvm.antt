-- ===== src/LowerToLlvm.antt =====
-- mlir/LowerToLLVM.cpp: from operations of the Ada dialect to the arith and LLVM dialects.
pub mod Emit
pub mod Operators
pub mod BinOp
pub mod CmpOp
pub mod UnOp
pub mod Checks
pub mod Verified
