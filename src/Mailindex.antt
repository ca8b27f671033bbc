-- ===== src/Mailindex.antt =====
-- mailindex/src/: the program that keeps the search index of the mails.
pub mod Key
