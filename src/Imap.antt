-- ===== src/Imap.antt =====
-- mailmux/src/imap/: the tasks of an account, which copy new messages into the tables.
pub mod Backoff
pub mod Supervisor
pub mod Sync
