-- ===== src/Auth.antt =====
-- api/auth: who may try to log in.
pub mod RateLimit
