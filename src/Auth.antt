-- ===== src/Auth.antt =====
-- internal/auth: who may log in, and how often one may try.
pub mod Limiter
pub mod Sessions
pub mod Login
