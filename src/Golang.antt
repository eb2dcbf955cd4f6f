-- ===== src/Golang.antt =====
-- The functions of Go's standard library that the program's logic rests on, over byte strings.
pub mod FilePath
pub mod Decimal
pub mod Split
pub mod Strings
pub mod Utf8
mod Tests
