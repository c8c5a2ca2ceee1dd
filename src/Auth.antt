-- ===== src/Auth.antt =====
-- src/soffortbackend/auth.py: the signing keys of the issuer, and the verification of access tokens.
pub mod Jwks
pub mod Verifier
