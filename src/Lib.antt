-- ===== src/Lib.antt =====
-- lalvm compiles Ada through MLIR. Its front end builds a module in an `ada` dialect, whose types
-- carry the Ada subtype of every value, and a pipeline of passes lowers the dialect to LLVM. This
-- library models the parts of that pipeline which decide what a compiled program computes and
-- which run-time checks it makes, and proves them against the Ada rules.
--
-- The parts, and how they meet:
-- - Llvm: what the passes use of LLVM and MLIR, which are not in this repository. `ApIntLib` has
--   the operations of APInt and APSInt, `Machine` those of the arith and LLVM dialects on bit
--   patterns; `IsApIntLib` and `IsMachine` are their documented laws, which the theorems take as
--   hypotheses. Llvm/Instance has values of all four.
-- - Dialect (mlir/Dialect.cpp, include/ada/Attrs.td, Ops.td, Types.td): Dialect/Types has the types,
--   type metadata and `ada.type`; Dialect/Scopes lookupSymbolFrom and lookupAdaType; Dialect/Table
--   baseOfAdaType, rootOfAdaType, modulusOfAdaType, intTypeInfoOfAdaType and
--   isUnsignedOrderQualType, which the passes use through the record `TypeTable`; Dialect/Bounds
--   inStaticRange; Dialect/Equality that the equality tests of types are equality; Dialect/Objects
--   the canonicalization of ada.read and ada.write in a block; Dialect/Verify the verifiers of the
--   operators, which LowerToLlvm/Verified applies; Dialect/Subprograms and Dialect/CallOps those of
--   ada.subp, ada.return and ada.call; Dialect/Accesses those of ada.object, ada.read and ada.write,
--   with the slots that promotion takes; Dialect/Defaults createDefaultObjectValue;
--   Dialect/Requalify ada.requalify, its verifier, folding and canonicalization; Dialect/Mangling
--   getMangledName, where StringRef::split is a parameter.
-- - Syntax (mlir/Dialect.cpp, parse and print functions): the text of integer, enumeration and array
--   metadata, of the operators and of the checks, as lists of tokens. The lexer and the
--   comma-separated lists of MLIR's parser are its own; `read_integer` is the integer that it makes
--   of a literal.
-- - LowerToLlvm (mlir/LowerToLLVM.cpp): LowerToLlvm/Operators has the operators and evalConstInt;
--   LowerToLlvm/Emit the code that a pattern emits, a chain of guarded raises that ends in a value,
--   and what it does; LowerToLlvm/BinOp, UnOp, CmpOp and Checks the patterns for ada.binop,
--   ada.unop, ada.cmp, ada.range_check, ada.index_check and ada.attr, with the theorems in the
--   modules below them.
-- - Conversions (mlir/LowerAdaConversions.cpp): both patterns for ada.convert, as lists of the
--   operations they emit. Conversions/Steps runs them, with the range checks that
--   LowerToLlvm/Checks lowers; Conversions/Change and SameRepresentation have the theorems.
-- - Indexing (mlir/LowerAdaIndexing.cpp): the check and the offset of ada.index.
-- - References (mlir/LowerAdaReferences.cpp): the patterns of ada.object, ada.read and ada.write, as
--   the operations they emit, and the types of those.
-- - Calls (mlir/LowerAdaCalls.cpp): Calls/Mapping mapSignature, Calls/Callee and Calls/Caller the two
--   halves of the lowering, which agree on copy-in, copy-back and captures by the modules beside
--   them.
-- - ClosureConversion (mlir/ClosureConversion.cpp): the pass over nested subprograms, innermost
--   first, on the subprograms and calls of a module. What makeRegionIsolatedFromAbove finds a body
--   to use from above is given with the subprogram.
-- - HoistNestedSymbolOperations (mlir/HoistNestedSymbolOperations.cpp): the renaming of subprograms
--   and of their uses to the names of Dialect/Mangling, one subprogram after the other.
-- - Ada: the meaning of the operators by the reference manual, which the lowerings are proved
--   against. Examples has concrete types and values for every theorem with a hypothesis.
--
-- Numbers are native naturals, integers are `Base.Int.ℤ`, and a word of `w` bits is a natural below
-- `2 ^ w`, read as unsigned or in two's complement; wrap-around is written out. The loops on fuel are
-- rootOfAdaType and TypeOp::hasDefaultValue, which follow base links: fuel as large as the rank of
-- the type suffices where base links form no cycle. All others are recursive on a list.
--
-- Not modelled: floats beyond the shape of the code (they have no laws), debug locations and the
-- debug information, the text of diagnostics, the memory, subprogram, call and control-flow patterns
-- of mlir/LowerToLLVM.cpp, the type conversion of functions and calls in
-- mlir/LowerAdaReferences.cpp, which MLIR does, the hoisting of types in
-- mlir/HoistNestedSymbolOperations.cpp, mlir/Binder.cpp, mlir/MLIRGen.cpp and frontend/, which walk
-- the trees of an external library, and the driver lalvm.cpp.
pub mod Base
pub mod Llvm
pub mod Dialect
pub mod LowerToLlvm
pub mod Conversions
pub mod Indexing
pub mod Calls
pub mod ClosureConversion
pub mod References
pub mod HoistNestedSymbolOperations
pub mod Syntax
pub mod Ada
pub mod Examples
