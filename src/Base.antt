-- ===== src/Base.antt =====
-- pkg/base: the signature base of a message.
pub mod Message
pub mod Line
pub mod Extract
pub mod Build
pub mod Agreement
pub mod OneLine
pub mod FieldLine
pub mod Binding
pub mod Injective
pub mod Returns
mod Tests
