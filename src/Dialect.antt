-- ===== src/Dialect.antt =====
-- The Ada dialect: its types and symbols, the queries the passes make of them, and its verifiers.
pub mod Types
pub mod Scopes
pub mod Bounds
pub mod Table
pub mod Roots
pub mod Objects
pub mod Verify
pub mod Subprograms
pub mod Equality
pub mod CallOps
pub mod Defaults
pub mod Requalify
pub mod Accesses
pub mod Mangling
