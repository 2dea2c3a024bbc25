-- ===== src/Slave/MailboxCount.antt =====
-- src/slave/slave.rs: the counter that a master writes into each mailbox message, from 1 to 7.
use ethercat.Base.{
  ℕ, zero, suc, ◌+◌, ◌≤◌, ◌<◌, ◌%◌, ◌≡◌, ◌≢◌, Result, ok, err, ltb, leb, if◌then◌else◌, arith,
}

-- The new value of the cell, which the method returns.
pub increment_mb_count : ℕ → ℕ
increment_mb_count count = if ltb count 7 then count + 1 else 1

-- `set_mailbox_count`: the cell's new value, or the `Err(())`.
pub set_mailbox_count : ℕ → Result ℕ (Unit {0})
set_mailbox_count count = if leb count 7 then ok count else err tt

abbrev pub increments : ℕ → ℕ → ℕ
increments zero count = count
increments (suc n) count = increments n (increment_mb_count count)

increment_mb_count_range :
    (count : ℕ) → (1 ≤ increment_mb_count count) × (increment_mb_count count ≤ 7)
unfolding increment_mb_count
increment_mb_count_range count = ground arith

increments_mod :
    (n count : ℕ) → 1 ≤ count → count ≤ 7 → increments n count ≡ (count + 6 + n) % 7 + 1
unfolding increment_mb_count
increments_mod zero count lo hi = omega arith
increments_mod (suc n) count lo hi = ground (
  arith,
  increment_mb_count_range count,
  increments_mod n (increment_mb_count count) (increment_mb_count_range count).0
      (increment_mb_count_range count).1,
)

increments_from_one : (n count : ℕ) → count ≤ 7 → increments (suc n) count ≡ (count + n) % 7 + 1
increments_from_one n zero h =
    unfold increment_mb_count in omega (arith, increments_mod n 1 (omega arith) (omega arith))
increments_from_one n (suc c) h =
    omega (arith, increments_mod (suc n) (suc c) (omega arith) (omega arith))

-- From a counter of at most 7 on, no two messages among any seven in a row carry the same counter, and
-- none carries 0.
pub increments_distinct :
    (i j count : ℕ)
    → count ≤ 7
    → i < j
    → j < i + 7
    → (increments (suc i) count ≢ increments (suc j) count) × (1 ≤ increments (suc i) count)
increments_distinct i j count h lt near =
    omega (arith, increments_from_one i count h, increments_from_one j count h)

-- `set_mailbox_count` accepts exactly the counters up to 7, so from an accepted one on every counter
-- that `increment_mb_count` gives is accepted too.
pub set_mailbox_count-increment_mb_count :
    (count : ℕ) → set_mailbox_count (increment_mb_count count) ≡ ok (increment_mb_count count)
unfolding set_mailbox_count increment_mb_count
set_mailbox_count-increment_mb_count count = ground arith
