-- ===== src/Task/Sending.antt =====
-- The shape of every branch of `next_pdu`: a chain of writes into the socket's buffer, none of which may
-- run past its end, and then the command.
use ethercat.Base.{
  ℕ, ◌≤◌, ◌≡◌, ◌∙◌, Option, none, some, List, ◌++◌, length, ◌>>=◌, fill, fill-some, length-fill,
  replicate, drop,
}
use ethercat.Foreign.Bits.{Written}
use ethercat.Task.{Sent}

-- A PDU was sent whose data lies in the buffer, and the buffer is as long as before.
abbrev pub SendsWithin : {Task : Type 0} → List ℕ → Option (Sent Task) → Type 0
SendsWithin buf (some (t, buf', some (command, n))) = (length buf' ≡ length buf) × (n ≤ length buf)
SendsWithin buf (some (t, buf', none)) = ⊥
SendsWithin buf none = ⊥

pub SendsWithin->>= :
    {Task : Type 0} (buf buf' : List ℕ) (m : Option (List ℕ)) (k : List ℕ → Option (Sent Task))
    → length buf' ≡ length buf
    → Written buf' m
    → ((b : List ℕ) → length b ≡ length buf → SendsWithin buf (k b))
    → SendsWithin buf (m >>= k)
SendsWithin->>= buf buf' m k l (b, e, lb) rest = rw e (rest b (lb ∙ l))

pub fill-Written : (n : ℕ) (buf : List ℕ) → n ≤ length buf → Written buf (fill n 0 buf)
fill-Written n buf h = (replicate n 0 ++ drop n buf, fill-some n 0 buf h, length-fill n 0 buf h)
