-- ===== src/Master/MailboxManager/Laws.antt =====
-- src/master/mailbox.rs: what the manager remembers and what it hands on.
use ethercat.Base.{
  ℕ, ◌+◌, ◌≡◌, refl, ap, sym, ◌∙◌, Bool-cases, if-cases, inl, inr, Option, none, some, List, [],
  ◌∷◌, get_elem?, ◌>>=◌, >>=-eq-some, some_inj,
}
use mathlib.Core.Path.{subst}
use ethercat.Foreign.{Bitfield}
use ethercat.Interface.Socket.{PduSocket}
use ethercat.Slave.Config.{SlaveConfig, FmmuConfig}
use ethercat.Slave.Info.{Slave}
use ethercat.Slave.Network.{Network, slaves_of}
use ethercat.Task.{EtherCatSystemTime}
use ethercat.Task.Driver
use ethercat.Task.Mailbox
use ethercat.Task.Mailbox.{MailboxTask, is_busy, is_write_mode, wait}
use ethercat.Master.MailboxManager.{
  MailboxManager, start_from, is_full, process_one_step, check_slave, check_slaves,
  find_slave_with_mailbox_from_process_data,
}

module _ ⦃bf : Bitfield⦄ where
  check_slave-task :
      (m : MailboxManager) (pos : ℕ) (s : Slave) (offset : ℕ) (image : List ℕ)
      (c : Option FmmuConfig) {m' : MailboxManager}
      → check_slave m pos s offset image c ≡ some m'
      → m'.task ≡ m.task
  unfolding check_slave
  check_slave-task m pos s offset image none h = ap (λ x. x.task) (sym (some_inj h))
  check_slave-task m pos s offset image (some c) h =
      let (full, _, h) = >>=-eq-some (is_full s offset image c) _ h in
      elim (if-cases full (some_inj h)) [
        | inl (_, e) ↦ ap (λ x. x.task) (sym e)
        | inr (_, e) ↦ ap (λ x. x.task) (sym e)
      ]

  check_slaves-task :
      (m : MailboxManager) (pos : ℕ) (places : List (Slave × SlaveConfig)) (offset : ℕ)
      (image : List ℕ) {m' : MailboxManager}
      → check_slaves m pos places offset image ≡ some m'
      → m'.task ≡ m.task
  unfolding check_slaves
  check_slaves-task m pos [] offset image h = ap (λ x. x.task) (sym (some_inj h))
  check_slaves-task m pos ((s, config) ∷ places) offset image h =
      let (fmmu, _, h) = >>=-eq-some (get_elem? s.fmmu 2) _ h in
      let (n, e, h) = >>=-eq-some (check_slave m pos s offset image fmmu) _ h in
      check_slaves-task n (pos + 1) places offset image h
      ∙ check_slave-task m pos s offset image fmmu e

  idle_step :
      (task : MailboxTask) (network : Network) (socket : PduSocket) (t : EtherCatSystemTime)
      → process_one_step (record { task = task; slave_with_mailbox = none }) network socket t ≡ (
          Driver.process_one_step Mailbox.task socket task t >>= λ r.
          some (record { task = r.1; slave_with_mailbox = none }, r.0))
  unfolding process_one_step start_from
  idle_step task network socket t = elim (Bool-cases (is_busy task)) [
    | inl e ↦ rw e refl
    | inr e ↦ rw e refl
  ]

  -- Whatever the process data show, the search leaves no slave to read from, so the next step of the manager is that
  -- of the task it has: it never starts to read a mailbox.
  pub find_slave-process_one_step :
      (m : MailboxManager) (network : Network) (offset : ℕ) (image : List ℕ) (socket : PduSocket)
      (t : EtherCatSystemTime) {m' : MailboxManager}
      → find_slave_with_mailbox_from_process_data m network offset image ≡ some m'
      → process_one_step m' network socket t ≡ (
          Driver.process_one_step Mailbox.task socket m.task t >>= λ r.
          some (record { task = r.1; slave_with_mailbox = none }, r.0))
  unfolding find_slave_with_mailbox_from_process_data
  find_slave-process_one_step m network offset image socket t h =
      let (n, e, h) = >>=-eq-some (check_slaves m 0 (slaves_of network) offset image) _ h in
      subst
        (λ x. process_one_step x network socket t ≡ (
          Driver.process_one_step Mailbox.task socket m.task t >>= λ r.
          some (record { task = r.1; slave_with_mailbox = none }, r.0)))
        (some_inj h)
        (idle_step n.task network socket t
          ∙ ap
              (λ k. Driver.process_one_step Mailbox.task socket k t >>= λ r.
                some (record { task = r.1; slave_with_mailbox = none }, r.0))
              (check_slaves-task m 0 (slaves_of network) offset image e))
