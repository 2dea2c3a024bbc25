-- ===== src/Task/Driver/Laws.antt =====
-- src/task/mod.rs: what `block_on` returns was reached by sends and answers, and it returns.
use ethercat.Base.{
  Outcome, returned, panicked, out_of_fuel, ℕ, zero, suc, ◌+◌, ◌≡◌, ◌≢◌, ◌≤◌, ◌<◌, refl, Bool, true,
  false, Option, none, some, Result, ok, err, ltb, >>=-eq-some, arith, if◌then◌else◌,
}
use mathlib.Core.Path.{subst}
use ethercat.Interface.{Pdu}
use ethercat.Interface.Socket.{PduSocket, get_recieved_pdu}
use ethercat.Task.{TaskError, timeout, EtherCatSystemTime, CyclicTask}
use ethercat.Task.Reach.{Reach, here, next, sends, receives, Reach-trans}
use ethercat.Task.Driver.{
  SocketInterface, Polled, again, ready, failed, poll_panicked, polled, process_one_step,
  receive_if, stepped, block_on, block_on_loop, max_count, Round, crashes, repeats, goes_on, ends,
  after_step, after_poll,
}

moved :
    {A B : Type 0} (P : B → Type 0) {a b : A} {v w : B}
    → ◌≡◌ {A = Option (A × B)} (some (a, v)) (some (b, w))
    → P v
    → P w
moved P e p = subst P (cc) p

module _ {Task : Type 0} (c : CyclicTask Task) where
  receive_if-Reach :
      (o : Option Pdu) (t t' : Task) (time : EtherCatSystemTime)
      → receive_if c o t time ≡ some t'
      → Reach c t t'
  unfolding receive_if
  receive_if-Reach none t t' time e = rw⁻¹ (some_inj e) here
    where
      some_inj : {A : Type 0} {a b : A} → some a ≡ some b → a ≡ b
      some_inj h = cc
  receive_if-Reach (some pdu) t t' time e = next here (receives pdu time e)

  process_one_step-Reach :
      (s s' : PduSocket) (t t' : Task) (time : EtherCatSystemTime)
      → process_one_step c s t time ≡ some (s', t')
      → Reach c t t'
  unfolding process_one_step
  process_one_step-Reach s s' t t' time e =
      let (o, _, e₁) = >>=-eq-some (get_recieved_pdu s) _ e in
      let (u, r, e₂) = >>=-eq-some (receive_if c o t time) _ e₁ in
      let ((v, buf, out), n, e₃) = >>=-eq-some (c.next_pdu u s.data_buf) _ e₂ in
      moved (Reach c t) e₃ (next (receive_if-Reach o t u time r) (sends s.data_buf buf out n))

module _ {Interface Task : Type 0} (si : SocketInterface Interface) (c : CyclicTask Task) where
  stepped-Reach :
      (i i' : Interface) (t t' : Task) (count : ℕ)
      → stepped si c i t count ≡ some (i', t')
      → Reach c t t'
  unfolding stepped
  stepped-Reach i i' t t' count e =
      let (s, _, e₁) = >>=-eq-some (si.get_socket i) _ e in
      let ((s', u), p, e₂) = >>=-eq-some (process_one_step c s t count) _ e₁ in
      moved (Reach c t) e₂ (process_one_step-Reach c s s' t u count p)

module _ {Interface Task : Type 0} (E : Type 0) (si : SocketInterface Interface)
    (c : CyclicTask Task) where
  -- What holds after a round, and of a successful return.
  abbrev Sound : Task → Interface × Task × Result (Unit {0}) (TaskError E) → Type 0
  Sound t (i', t', ok u) = Reach c t t' × (c.is_busy t' ≡ false)
  Sound t (i', t', err e) = Reach c t t'

  abbrev RoundSound : Task → Round Interface Task E → Type 0
  RoundSound t (goes_on i' t') = Reach c t t'
  RoundSound t (ends r) = Sound t r
  RoundSound t _ = Unit

  after_step-Sound :
      (count : ℕ) (i' : Interface) (t t' : Task) (b : Bool)
      → c.is_busy t' ≡ b
      → Reach c t t'
      → RoundSound t (
          if b
          then if ltb max_count (count + 1) then ends (i', t', err timeout) else goes_on i' t'
          else ends (i', t', ok tt))
  after_step-Sound count i' t t' false e r = (r, e)
  after_step-Sound count i' t t' true e r = go (ltb max_count (count + 1))
    where
      go : (b : Bool) → RoundSound t (if b then ends (i', t', err timeout) else goes_on i' t')
      go true = r
      go false = r

  after_poll-Sound :
      (count : ℕ) (p : Polled Interface) (t : Task) → RoundSound t (after_poll E si c count p t)
  unfolding after_poll
  after_poll-Sound count poll_panicked t = tt
  after_poll-Sound count (again i) t = tt
  after_poll-Sound count (failed i e) t = here
  after_poll-Sound count (ready i) t = go (stepped si c i t count) refl
    where
      go :
          (o : Option (Interface × Task))
          → stepped si c i t count ≡ o
          → RoundSound t (after_step E si c count o)
      go none e = tt
      go (some (i', t')) e =
          after_step-Sound count i' t t' (c.is_busy t') refl (stepped-Reach si c i i' t t' count e)

  abbrev OutcomeSound : Task → Outcome (Interface × Task × Result (Unit {0}) (TaskError E)) → Type 0
  OutcomeSound t (returned r) = Sound t r
  OutcomeSound t _ = Unit

  Sound-trans :
      {t u : Task} (r : Interface × Task × Result (Unit {0}) (TaskError E))
      → Reach c t u
      → Sound u r
      → Sound t r
  Sound-trans (i', t', ok _) q s = (Reach-trans c q s.0, s.1)
  Sound-trans (i', t', err _) q s = Reach-trans c q s

  loop-Sound :
      (fuel count : ℕ) (i : Interface) (t₀ t : Task)
      → Reach c t₀ t
      → OutcomeSound t₀ (block_on_loop E si c fuel count i t)
  unfolding block_on_loop
  loop-Sound zero count i t₀ t q = tt
  loop-Sound (suc fuel) count i t₀ t q =
      go (after_poll E si c count (polled (si.poll_tx_rx i)) t)
        (after_poll-Sound count (polled (si.poll_tx_rx i)) t)
        (λ count' i' t' q'. loop-Sound fuel count' i' t₀ t' q')
    where
      go :
          (r : Round Interface Task E)
          → RoundSound t r
          → ((count' : ℕ) (i' : Interface) (t' : Task)
              → Reach c t₀ t'
              → OutcomeSound t₀ (block_on_loop E si c fuel count' i' t'))
          → OutcomeSound t₀ (elim r [
            | crashes ↦ panicked
            | repeats i ↦ block_on_loop E si c fuel count i t
            | ends r ↦ returned r
            | goes_on i t ↦ block_on_loop E si c fuel (count + 1) i t
          ])
      go crashes s rest = tt
      go (repeats i') s rest = rest count i' t q
      go (ends r) s rest = Sound-trans r q s
      go (goes_on i' t') s rest = rest (count + 1) i' t' (Reach-trans c q s)

  -- When `block_on` returns success, the task it leaves was reached from the one it was given by sends and
  -- answers alone, and is done.
  pub block_on_finished :
      (fuel : ℕ) (i i' : Interface) (t t' : Task)
      → block_on E si c fuel i t ≡ returned (i', t', ok tt)
      → Reach c t t' × (c.is_busy t' ≡ false)
  unfolding block_on
  block_on_finished fuel i i' t t' e = subst (OutcomeSound t) e (loop-Sound fuel 0 i t t here)

  after_poll-progress :
      (count : ℕ) (p : Polled Interface) (t : Task) (i' : Interface) (t' : Task)
      → after_poll E si c count p t ≡ goes_on i' t'
      → count + 1 ≤ max_count
  unfolding after_poll
  after_poll-progress count p t i' t' e = ground arith

  -- How many of the rounds of a run the turn of the sockets asks to repeat.
  unfoldable pub repetitions : ℕ → ℕ → Interface → Task → ℕ
  unfolding after_poll
  repetitions zero count i t = 0
  repetitions (suc fuel) count i t = elim (after_poll E si c count (polled (si.poll_tx_rx i)) t) [
    | crashes ↦ 0
    | repeats i ↦ suc (repetitions fuel count i t)
    | ends r ↦ 0
    | goes_on i t ↦ repetitions fuel (count + 1) i t
  ]

  loop-returns :
      (fuel count : ℕ) (i : Interface) (t : Task)
      → repetitions fuel count i t + max_count < count + fuel
      → count ≤ max_count
      → block_on_loop E si c fuel count i t ≢ out_of_fuel
  unfolding block_on_loop repetitions
  loop-returns zero count i t h l = absurd (omega arith)
  loop-returns (suc fuel) count i t h l =
      go (after_poll E si c count (polled (si.poll_tx_rx i)) t) refl
        (λ count' i' t' h' l'. loop-returns fuel count' i' t' h' l') h
    where
      go :
          (r : Round Interface Task E)
          → after_poll E si c count (polled (si.poll_tx_rx i)) t ≡ r
          → ((count' : ℕ) (i' : Interface) (t' : Task)
              → repetitions fuel count' i' t' + max_count < count' + fuel
              → count' ≤ max_count
              → block_on_loop E si c fuel count' i' t' ≢ out_of_fuel)
          → elim r [
            | crashes ↦ 0
            | repeats i ↦ suc (repetitions fuel count i t)
            | ends r ↦ 0
            | goes_on i t ↦ repetitions fuel (count + 1) i t
          ]
              + max_count
            < count + suc fuel
          → (elim r [
            | crashes ↦ panicked
            | repeats i ↦ block_on_loop E si c fuel count i t
            | ends r ↦ returned r
            | goes_on i t ↦ block_on_loop E si c fuel (count + 1) i t
          ])
            ≢ out_of_fuel
      go crashes e rest k = λ q. absurd (cc)
      go (repeats i') e rest k = rest count i' t (omega arith) l
      go (ends r) e rest k = λ q. absurd (cc)
      go (goes_on i' t') e rest k =
          rest (count + 1) i' t' (omega arith)
            (after_poll-progress count (polled (si.poll_tx_rx i)) t i' t' e)

  pub block_on_returns :
      (fuel : ℕ) (i : Interface) (t : Task)
      → repetitions fuel 0 i t + max_count < fuel
      → block_on E si c fuel i t ≢ out_of_fuel
  unfolding block_on
  block_on_returns fuel i t h = loop-returns fuel 0 i t (omega arith) (omega arith)
