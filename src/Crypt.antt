-- ===== src/Crypt.antt =====
-- internal/crypt/cipher.go: the encrypted file format of the uploaded parts.
pub mod Size
pub mod Io
pub mod Format
pub mod Encrypt
pub mod Decrypt
mod Tests
pub mod Nonce
