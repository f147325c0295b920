-- ===== src/Digest.antt =====
-- The authentication of CalDAV (digest.go): the header of a Digest login, its check, and the nonces.
-- MD5, HMAC, base64, the numbers in texts and the case mapping are Go's packages: they are parameters.
pub mod Header
pub mod Verify
pub mod Logins
pub mod Nonces
