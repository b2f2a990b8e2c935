-- ===== src/Auth.antt =====
-- hub/src/goffy_hub/auth.py
pub mod Principal
pub mod Authenticator
pub mod Access
