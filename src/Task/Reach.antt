-- ===== src/Task/Reach.antt =====
-- The runs of a cyclic task: sends and answers in any order, with any content and at any time.
use ethercat.Base.{ℕ, ◌≡◌, refl, ◌∙◌, ap, Option, none, some, List}
use ethercat.Interface.{Command, Pdu}
use ethercat.Task.{CyclicTask, EtherCatSystemTime, Sent}

module _ {Task : Type 0} (c : CyclicTask Task) where
  pub data Step (t t' : Task) : Type 0 where
    sends :
        (buf buf' : List ℕ) (out : Option (Command × ℕ))
        → c.next_pdu t buf ≡ some (t', buf', out)
        → Step t t'
    receives :
        (pdu : Pdu) (time : EtherCatSystemTime)
        → c.recieve_and_process t pdu time ≡ some t'
        → Step t t'

  pub data Reach (t : Task) : Task → Type 0 where
    here : Reach t t
    next : {u v : Task} → Reach t u → Step u v → Reach t v

  -- What every send and every answer preserves holds on every run.
  pub Reach-invariant {ℓ} :
      (P : Task → Type ℓ)
      → ((t t' : Task) (buf buf' : List ℕ) (out : Option (Command × ℕ))
          → P t
          → c.next_pdu t buf ≡ some (t', buf', out)
          → P t')
      → ((t t' : Task) (pdu : Pdu) (time : EtherCatSystemTime)
          → P t
          → c.recieve_and_process t pdu time ≡ some t'
          → P t')
      → {t t' : Task} → P t
      → Reach t t'
      → P t'
  Reach-invariant P send recv h here = h
  Reach-invariant P send recv h (next r (sends buf buf' out e)) =
      send _ _ buf buf' out (Reach-invariant P send recv h r) e
  Reach-invariant P send recv h (next r (receives pdu time e)) =
      recv _ _ pdu time (Reach-invariant P send recv h r) e

-- One turn with slaves that answer what was sent: the data that comes back, and the working counter.
abbrev pub exchange :
    {Task : Type 0}
    → CyclicTask Task
    → ℕ
    → List ℕ
    → List ℕ
    → EtherCatSystemTime
    → Task
    → Option Task
exchange c wkc buf bytes time t = elim (c.next_pdu t buf) [
  | none ↦ none
  | some (t', buf', none) ↦ some t'
  | some (t', buf', some (command, n)) ↦
      c.recieve_and_process t' (record { command = command; bytes = bytes; wkc = wkc }) time
]

some_inj : {A : Type 0} {a b : A} → some a ≡ some b → a ≡ b
some_inj h = cc

-- A turn is a send and, if something was sent, an answer.
pub Reach-exchange :
    {Task : Type 0} (c : CyclicTask Task) (wkc : ℕ) (buf bytes : List ℕ) (time : EtherCatSystemTime)
    {t u v : Task}
    → Reach c t u
    → exchange c wkc buf bytes time u ≡ some v
    → Reach c t v
Reach-exchange {Task} c wkc buf bytes time {t} {u} {v} r e = go (c.next_pdu u buf) refl e
  where
    after : Option (Sent Task) → Option Task
    after none = none
    after (some (t', buf', none)) = some t'
    after (some (t', buf', some (command, n))) =
        c.recieve_and_process t' (record { command = command; bytes = bytes; wkc = wkc }) time

    go : (o : Option (Sent Task)) → c.next_pdu u buf ≡ o → after o ≡ some v → Reach c t v
    go none q e = absurd (cc)
    go (some (t', buf', none)) q e =
        next r (sends buf buf' none (q ∙ ap (λ x. some (x, buf', none)) (some_inj e)))
    go (some (t', buf', some (command, n))) q e =
        next (next r (sends buf buf' (some (command, n)) q))
          (receives (record { command = command; bytes = bytes; wkc = wkc }) time e)

module _ {Task : Type 0} (c : CyclicTask Task) where
  pub Reach-trans : {t u v : Task} → Reach c t u → Reach c u v → Reach c t v
  Reach-trans r here = r
  Reach-trans r (next q s) = next (Reach-trans r q) s
