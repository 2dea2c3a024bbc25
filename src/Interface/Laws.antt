-- ===== src/Interface/Laws.antt =====
-- What commands carry.
use ethercat.Base.{ℕ, ◌+◌, ◌*◌, ◌%◌, ◌^◌, ◌<◌, ◌≡◌, true, arith}
use ethercat.Interface.{
  CommandType, discriminant, Command, get_ap_adp, new_logical_read_write, answers,
}

-- The address of a position below 2 ^ 16 fits 16 bits, and is 0 modulo 2 ^ 16 after as many increments
-- as the position says.
pub get_ap_adp_lem :
    (pos : ℕ) → pos < 2 ^ 16 → (get_ap_adp pos < 2 ^ 16) × ((get_ap_adp pos + pos) % 2 ^ 16 ≡ 0)
unfolding get_ap_adp
get_ap_adp_lem pos h = ground arith

-- The two halves of a 32-bit logical address each fit 16 bits and give the address back.
pub new_logical_read_write_lem :
    (address : ℕ)
    → address < 2 ^ 32
    → let c = new_logical_read_write address in
      (c.ado * 2 ^ 16 + c.adp ≡ address) × (c.adp < 2 ^ 16) × (c.ado < 2 ^ 16)
unfolding new_logical_read_write
new_logical_read_write_lem address h = omega arith

-- The variant is determined by its discriminant, so the derived `==` is equality.
pub discriminant_inj : (c d : CommandType) → discriminant c ≡ discriminant d → c ≡ d
unfolding discriminant
discriminant_inj c d h = ground arith

pub answers_self : (c : Command) → answers c c ≡ true
unfolding answers
answers_self c = ground arith

pub answers_iff :
    (received sent : Command)
    → answers received sent ≡ true
    → (received.c_type ≡ sent.c_type) × (received.ado ≡ sent.ado)
unfolding answers
answers_iff r s h = (discriminant_inj r.c_type s.c_type (ground arith), ground arith)
