-- ===== src/Smtp.antt =====
-- The SMTP server (smtpd.go): the session of a mail client, and what it lets through. The protocol is
-- the library go-smtp; the client that sends is a parameter.
pub mod Session
pub mod Login
