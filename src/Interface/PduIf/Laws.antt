-- ===== src/Interface/PduIf/Laws.antt =====
-- src/interface/pdu_if.rs: what `add_pdu` leaves in the buffer, and what `consume_pdus` finds there.
use ethercat.Base.{
  ℕ, suc, ◌+◌, ◌^◌, ◌≤◌, ◌<◌, min, ◌≡◌, refl, ap, sym, ◌∙◌, Option, none, some, List, [], ◌∷◌, ◌++◌,
  length, length-append, set, split_at, slice-append, copy_at-append, set_at, set_at-append,
  length-set, set_at-none, append_assoc, ok, ◌>>=◌, arith,
}
use ethercat.Foreign.{Bitfield}
use ethercat.Interface.{Command}
use ethercat.Interface.PduIf.{PduInterface, new, header, write_pdu, add_pdu, consume_pdus}
use ethercat.Frame.Pdus
use ethercat.Frame.Pdus.{pdus_of, pdus_from}
use ethercat.Frame.Pdus.Laws.{pdus_of-returned}
use ethercat.Interface.PduIf.Codec.{header-IsHeader}
use ethercat.Interface.PduIf.Queue.{
  Waiting, IsFrame, Encoded, Encoded-snoc, AllFilled, AllCarry, pdus_from-Encoded, length-IsFrame,
  Encoded-length,
}

-- The fields of the header have room for the index and the command.
pub record Fits (e : Waiting) : Type 0 where
  pub index_fits : e.index < 2 ^ 8
  pub adp_fits : e.command.adp < 2 ^ 16
  pub ado_fits : e.command.ado < 2 ^ 16
  pub size_fits : length e.bytes ≤ 1486

-- The closure puts these bytes in the place of as many.
abbrev pub Writes : (List ℕ → List ℕ) → List ℕ → Type 0
Writes writer bytes = (room : List ℕ) → length room ≡ length bytes → writer room ≡ bytes

module _ ⦃bf : Bitfield⦄ where
  -- The buffer holds these PDUs, one after another, and the counts agree with it.
  pub record IsValid {D : Type 0} (s : PduInterface D) (es : List Waiting) : Type 0 where
    pub front : List ℕ
    pub room : List ℕ
    pub halves : s.buffer ≡ front ++ room
    pub total_is : length front ≡ s.pdus_total_size
    pub encoded : Encoded es front
    pub count_is : s.pdu_count ≡ length es
    pub capacity_is : s.capacity ≡ min (length s.buffer) 1498

  -- The writes of `add_pdu` up to those of the working counter, over a buffer in its parts.
  write_pdu_parts :
      (front a d ws h : List ℕ) (e : Waiting) (writer : List ℕ → List ℕ)
      → header e.index e.command (length e.bytes) ≡ some h
      → length h ≡ 10
      → length a ≡ 10
      → length d ≡ length e.bytes
      → Writes writer e.bytes
      → write_pdu
          (front ++ (a ++ (d ++ ws)))
          (length front)
          e.index
          e.command
          (length e.bytes)
          writer
        ≡ (set_at (length front + 10 + length e.bytes + 1) 0 (((front ++ h) ++ e.bytes) ++ ws)
            >>= set_at (length front + 10 + length e.bytes + 2) 0)
  unfolding write_pdu
  write_pdu_parts front a d ws h e writer eh lh la ld w =
      let lp = length-append front h in
      let n = length e.bytes in
      rw
        (
          eh,
          copy_at-append front a (d ++ ws) h (length front) refl (lh ∙ sym la)
              ∙ ap some (sym (append_assoc front h (d ++ ws))),
          slice-append (front ++ h) d ws (length front + 10) (length front + 10 + n)
              (omega (arith, lp, lh)) (omega (arith, lp, lh, ld)),
          w d ld,
          copy_at-append (front ++ h) d ws e.bytes (length front + 10) (omega (arith, lp, lh))
                (sym ld)
              ∙ ap some (sym (append_assoc (front ++ h) e.bytes ws)),
        )
        refl

  record Parts (room : List ℕ) (n : ℕ) : Type 0 where
    head : List ℕ
    body : List ℕ
    rest : List ℕ
    parts : room ≡ head ++ (body ++ rest)
    ten : length head ≡ 10
    size : length body ≡ n
    left : length rest + 10 + n ≡ length room

  split_room : (room : List ℕ) (n : ℕ) → 10 + n ≤ length room → Parts room n
  split_room room n k =
      let (a, r, e1, ten) = split_at 10 room (omega arith) in
      let l1 = ap length e1 ∙ length-append a r in
      let (d, ws, e2, same) = split_at n r (omega (arith, l1, ten)) in
      let l2 = ap length e2 ∙ length-append d ws in
      record {
        head = a;
        body = d;
        rest = ws;
        parts = e1 ∙ ap (λ v. a ++ v) e2;
        ten = ten;
        size = same;
        left = omega (arith, l1, l2, ten, same);
      }

  -- The writes of the working counter.
  set_wkc :
      (xs : List ℕ) (i : ℕ) (ws : List ℕ)
      → i ≡ length xs
      → 3 ≤ length ws
      → (v : ℕ) × (tail : List ℕ) × ((set_at (i + 1) 0 (xs ++ ws) >>= set_at (i + 2) 0)
          ≡ some (xs ++ (v ∷ 0 ∷ 0 ∷ tail)))
        × (length tail + 3 ≡ length ws)
  set_wkc xs i [] e k = absurd (omega arith)
  set_wkc xs i (a ∷ []) e k = absurd (omega arith)
  set_wkc xs i (a ∷ b ∷ []) e k = absurd (omega arith)
  set_wkc xs i (a ∷ b ∷ c ∷ ws) e k = (
    a,
    ws,
    rw (set_at-append xs (a ∷ b ∷ c ∷ ws) (i + 1) 1 0 (omega arith) (omega arith))
        (set_at-append xs (a ∷ 0 ∷ c ∷ ws) (i + 2) 2 0 (omega arith) (omega arith)),
    omega arith,
  )

  regroup : (a b c d e : List ℕ) → ((a ++ b) ++ c) ++ (d ++ e) ≡ (a ++ (b ++ (c ++ d))) ++ e
  regroup a b c d e =
      sym (append_assoc ((a ++ b) ++ c) d e)
      ∙ ap (λ v. v ++ e) (append_assoc (a ++ b) c d ∙ append_assoc a b (c ++ d))

  set_wkc_full :
      (xs : List ℕ) (i : ℕ) (ws : List ℕ)
      → i ≡ length xs
      → length ws ≡ 2
      → (set_at (i + 1) 0 (xs ++ ws) >>= set_at (i + 2) 0) ≡ none
  set_wkc_full xs i ws e k = rw (set_at-append xs ws (i + 1) 1 0 (omega arith) (omega arith)) (
      set_at-none (i + 2) 0 (xs ++ set ws 1 0)
        (omega (arith, length-append xs (set ws 1 0), length-set ws 1 0)))

  -- A PDU that leaves a byte of the buffer is written behind what is there.
  pub write_pdu-IsFrame :
      (front room : List ℕ) (e : Waiting) (writer : List ℕ → List ℕ)
      → Fits e
      → Writes writer e.bytes
      → 12 + length e.bytes < length room
      → (frame : List ℕ) × (tail : List ℕ) × (write_pdu
            (front ++ room)
            (length front)
            e.index
            e.command
            (length e.bytes)
            writer
          ≡ some ((front ++ frame) ++ tail))
        × IsFrame frame e
        × (length frame + length tail ≡ length room)
  write_pdu-IsFrame front room e writer f w k =
      let n = length e.bytes in
      let p = split_room room n (omega arith) in
      let (h, eh, fields) =
        header-IsHeader e.index e.command n f.index_fits f.adp_fits f.ado_fits
          (omega (arith, f.size_fits)) in
      let lp = length-append front h in
      let lq = length-append (front ++ h) e.bytes in
      let (v, tail, ev, lt) =
        set_wkc ((front ++ h) ++ e.bytes) (length front + 10 + n) p.rest
          (omega (arith, lp, lq, fields.ten)) (omega (arith, p.left)) in
      let lf = length-append h (e.bytes ++ (v ∷ 0 ∷ [])) in
      let lb = length-append e.bytes (v ∷ 0 ∷ []) in
      (
        h ++ (e.bytes ++ (v ∷ 0 ∷ [])),
        0 ∷ tail,
        ap (λ r. write_pdu (front ++ r) (length front) e.index e.command n writer) p.parts
            ∙ write_pdu_parts front p.head p.body p.rest h e writer eh fields.ten p.ten p.size w
            ∙ ev
            ∙ ap some (regroup front h e.bytes (v ∷ 0 ∷ []) (0 ∷ tail)),
        record { header = h; wkc = v ∷ 0 ∷ []; parts = refl; fields = fields; two = refl },
        omega (arith, lf, lb, lt, p.left, fields.ten),
      )

  pub write_pdu-none :
      (front room : List ℕ) (e : Waiting) (writer : List ℕ → List ℕ)
      → Fits e
      → Writes writer e.bytes
      → 12 + length e.bytes ≡ length room
      → write_pdu (front ++ room) (length front) e.index e.command (length e.bytes) writer ≡ none
  write_pdu-none front room e writer f w k =
      let n = length e.bytes in
      let p = split_room room n (omega arith) in
      let (h, eh, fields) =
        header-IsHeader e.index e.command n f.index_fits f.adp_fits f.ado_fits
          (omega (arith, f.size_fits)) in
      let lp = length-append front h in
      let lq = length-append (front ++ h) e.bytes in
      ap (λ r. write_pdu (front ++ r) (length front) e.index e.command n writer) p.parts
      ∙ write_pdu_parts front p.head p.body p.rest h e writer eh fields.ten p.ten p.size w
      ∙ set_wkc_full ((front ++ h) ++ e.bytes) (length front + 10 + n) p.rest
          (omega (arith, lp, lq, fields.ten)) (omega (arith, p.left))

module _ {D : Type 0} ⦃bf : Bitfield⦄ where
  pub new-IsValid : (ethdev : D) (buffer : List ℕ) → IsValid (new ethdev buffer) []
  unfolding new
  new-IsValid ethdev buffer = record {
    front = [];
    room = buffer;
    halves = refl;
    total_is = refl;
    encoded = refl;
    count_is = refl;
    capacity_is = refl;
  }

  added : PduInterface D → List ℕ → ℕ → PduInterface D
  added s buffer n = record s {
    buffer = buffer;
    pdus_total_size = s.pdus_total_size + (10 + n + 2);
    pdu_count = s.pdu_count + 1;
  }

  accepted :
      (s : PduInterface D) (i : ℕ) (c : Command) (n : ℕ) (writer : List ℕ → List ℕ)
      (o : Option (List ℕ))
      → s.pdus_total_size + 12 + n ≤ s.capacity
      → n ≤ 1486
      → write_pdu s.buffer s.pdus_total_size i c n writer ≡ o
      → add_pdu s i c n writer ≡ (o >>= λ b. some (added s b n, ok tt))
  unfolding add_pdu added
  accepted s i c n writer o h k e = rw (sym e) (ground arith)

  -- A PDU whose fields fit theirs, and that fits the capacity and leaves at least a byte of the buffer, is added behind
  -- the PDUs that wait there: their size and their number grow by it, and the device, the PDUs under way, the capacity,
  -- the length of the buffer and the size of what was received stay.
  pub add_pdu_lem :
      (s : PduInterface D) (es : List Waiting) (e : Waiting) (writer : List ℕ → List ℕ)
      → IsValid s es
      → Fits e
      → Writes writer e.bytes
      → s.pdus_total_size + 12 + length e.bytes ≤ s.capacity
      → s.pdus_total_size + 12 + length e.bytes < length s.buffer
      → (s' : PduInterface D) × (add_pdu s e.index e.command (length e.bytes) writer
          ≡ some (s', ok tt))
        × IsValid s' (es ++ (e ∷ []))
        × (s'.pdus_total_size ≡ s.pdus_total_size + 12 + length e.bytes)
        × (s'.pdu_count ≡ s.pdu_count + 1)
        × (s'.ethdev ≡ s.ethdev)
        × (s'.tx_count ≡ s.tx_count)
        × (s'.recv_data_size ≡ s.recv_data_size)
        × (s'.capacity ≡ s.capacity)
        × (length s'.buffer ≡ length s.buffer)
  unfolding added
  add_pdu_lem s es e writer v f w c k =
      let (frame, tail, eq, g, lt) =
        write_pdu-IsFrame v.front v.room e writer f w
          (omega (arith, v.total_is, ap length v.halves, length-append v.front v.room)) in
      let same : length ((v.front ++ frame) ++ tail) ≡ length s.buffer = omega (
        arith,
        lt,
        ap length v.halves,
        length-append v.front v.room,
        length-append (v.front ++ frame) tail,
        length-append v.front frame,
      ) in
      (
        added s ((v.front ++ frame) ++ tail) (length e.bytes),
        accepted s e.index e.command (length e.bytes) writer (some ((v.front ++ frame) ++ tail)) c
            f.size_fits
            (ap (λ b. write_pdu b s.pdus_total_size e.index e.command (length e.bytes) writer)
                v.halves
              ∙ ap (λ t. write_pdu (v.front ++ v.room) t e.index e.command (length e.bytes) writer)
                  (sym v.total_is)
              ∙ eq),
        record {
          front = v.front ++ frame;
          room = tail;
          halves = refl;
          total_is =
              omega (arith, length-append v.front frame, length-IsFrame frame e g, v.total_is);
          encoded = Encoded-snoc es e v.front frame v.encoded g;
          count_is = omega (arith, v.count_is, length-append es (e ∷ []));
          capacity_is = v.capacity_is ∙ ap (λ n. min n 1498) (sym same);
        },
        omega arith,
        refl,
        refl,
        refl,
        refl,
        refl,
        same,
      )

  -- A PDU that fits the capacity and fills the buffer to its last byte is not refused: the write of the working
  -- counter panics.
  pub add_pdu_full_panics :
      (s : PduInterface D) (es : List Waiting) (e : Waiting) (writer : List ℕ → List ℕ)
      → IsValid s es
      → Fits e
      → Writes writer e.bytes
      → s.pdus_total_size + 12 + length e.bytes ≡ length s.buffer
      → length s.buffer ≤ 1498
      → add_pdu s e.index e.command (length e.bytes) writer ≡ none
  add_pdu_full_panics s es e writer v f w k l =
      accepted s e.index e.command (length e.bytes) writer none (omega (arith, v.capacity_is))
        f.size_fits
        (ap (λ b. write_pdu b s.pdus_total_size e.index e.command (length e.bytes) writer) v.halves
          ∙ ap (λ t. write_pdu (v.front ++ v.room) t e.index e.command (length e.bytes) writer)
              (sym v.total_is)
          ∙ write_pdu-none v.front v.room e writer f w
              (omega (arith, v.total_is, ap length v.halves, length-append v.front v.room)))

  -- The PDUs that wait, each with some data, come out of the buffer in their order with their fields and data,
  -- and the interface holds nothing then.
  pub consume_pdus_lem :
      (s : PduInterface D) (es : List Waiting)
      → IsValid s es
      → AllFilled es
      → (pdus : List (List ℕ)) × (consume_pdus s
          ≡ some (record s { pdus_total_size = 0; recv_data_size = 0 }, pdus))
        × AllCarry pdus es
  unfolding consume_pdus Pdus.new
  consume_pdus_lem s es v a =
      let (pdus, eq, c) =
        pdus_from-Encoded es [] v.front v.room (length s.buffer) s.pdus_total_size v.encoded a
          (omega (
            arith,
            v.total_is,
            ap length v.halves,
            length-append v.front v.room,
            Encoded-length es v.front v.encoded,
          ))
          (omega (arith, v.total_is)) in
      (
        pdus,
        rw
            (pdus_of-returned (Pdus.new s.buffer s.pdus_total_size 0) pdus (
              ap (λ b. pdus_from (suc (length s.buffer)) (Pdus.new b s.pdus_total_size 0)) v.halves
              ∙ eq))
            refl,
        c,
      )
