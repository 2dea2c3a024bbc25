-- ===== src/Interface/PduIf/Wire.antt =====
-- A network device for the tests, over which every frame comes back.
use ethercat.Base.{ℕ, Option, none, some, List, [], ◌∷◌, set, replicate, true}
use ethercat.Interface.PduIf.{RawEthernetDevice, no_rx_token, rx_token, tx_token}

-- The frames that come back: each frame that is sent, from another source.
abbrev pub Wire : Type 0
Wire = List (List ℕ)

abbrev pub wire : RawEthernetDevice Wire
wire = record {
  transmit = λ frames n. tx_token (replicate n 0) (λ frame. (set frame 6 2 ∷ frames, true));
  receive =
      λ frames. elim frames [ [] ↦ no_rx_token [] | frame ∷ rest ↦ rx_token frame (rest, true) ];
}

-- What a step that does not panic gives.
abbrev pub or_else : {A : Type 0} → Option A → A → A
or_else none a = a
or_else (some a) b = a
