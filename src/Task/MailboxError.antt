-- ===== src/Task/MailboxError.antt =====
-- src/task/mailbox.rs: `MailboxTaskError`, which the reader and the writer of a mailbox report.
pub data MailboxTaskError : Type 0 where
  no_slave_reaction mailbox_empty mailbox_already_existed buffer_small : MailboxTaskError
