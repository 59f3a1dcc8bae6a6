-- ===== src/Sfv.antt =====
-- pkg/sfv: the parser and the serializer of RFC 8941 structured fields.
pub mod Types
pub mod Lexer
pub mod Primitives
pub mod Collections
pub mod Serialize
pub mod Reads
pub mod Printed
pub mod Bounded
mod Tests
