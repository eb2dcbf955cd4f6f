-- ===== src/Http/Validation.antt =====
-- internal/adapter/http/validation: the type and the name of an uploaded file.
pub mod FileType
pub mod Filename
pub mod Safety
pub mod Allowed
mod Tests
