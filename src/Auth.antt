-- ===== src/Auth.antt =====
-- internal/auth: who may log in, and for how long.
pub mod RateLimit
pub mod Jwt
pub mod Recovery
pub mod Klever
