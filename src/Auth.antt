-- ===== src/Auth.antt =====
-- The package auth: who may call the HTTP server, and how often.
pub mod RateLimit
pub mod Authenticator
pub mod Oauth
