-- ===== src/Stdlib.antt =====
-- The functions of Go's standard library that the program calls: `encoding/base64`, `strconv`,
-- the UTF-8 loop of `range` over a string, and `strings`.
pub mod Base64
pub mod Strconv
pub mod Utf8
pub mod Strings
pub mod Header
