-- ===== src/Http.antt =====
-- internal/adapter/http: what the server does with a request.
pub mod Validation
pub mod Exchange
pub mod Middleware
pub mod Auth
pub mod MediaTypes
pub mod Media
pub mod Pages
pub mod Chunks
pub mod Upload
pub mod Events
