-- ===== src/Parser.antt =====
-- pkg/parser: signature metadata from the Signature-Input and Signature headers.
pub mod Types
pub mod Validator
pub mod Signatures
pub mod Times
pub mod Window
pub mod Timely
pub mod Valid
pub mod Paired
mod Tests
