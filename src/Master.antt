-- ===== src/Master.antt =====
-- src/master: the parts that run the tasks of the cycle.
pub mod MailboxManager
