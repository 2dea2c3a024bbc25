-- ===== src/Slave/Tests.antt =====
-- The counter of a slave's mailbox messages at concrete counts.
use ethercat.Base.{◌≢◌, ◌≤◌, arith}
use ethercat.Slave.MailboxCount.{increments, increments_distinct}

increments_distinct_example : (increments 3 5 ≢ increments 7 5) × (1 ≤ increments 3 5)
increments_distinct_example = increments_distinct 2 6 5 (omega arith) (omega arith) (omega arith)
