-- ===== src/Crypt.antt =====
-- src/crypt: the encrypted tokens.
pub mod Fernet
