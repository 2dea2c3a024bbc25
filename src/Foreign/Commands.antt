-- ===== src/Foreign/Commands.antt =====
-- A conversion to `CommandType` that searches the variants, which shows that the laws of `FromPrimitive` can be
-- met and lets tests run.
use ethercat.Base.{ℕ, ◌≡◌, ◌≢◌, refl, List, [], ◌∷◌, ◌==◌, if◌then◌else◌, arith}
use ethercat.Foreign.{FromPrimitive}
use ethercat.Interface.{
  CommandType, discriminant, nop, aprd, apwr, aprw, fprd, fpwr, fprw, brd, bwr, brw, lrd, lwr, lrw,
  armw, frmw, invalid,
}

abbrev pub variants : List CommandType
variants =
    nop ∷ aprd ∷ apwr ∷ aprw ∷ fprd ∷ fpwr ∷ fprw ∷ brd ∷ bwr ∷ brw ∷ lrd ∷ lwr ∷ lrw ∷ armw ∷ frmw
    ∷ []

unfoldable pub find_type : List CommandType → ℕ → CommandType
find_type [] n = invalid
find_type (c ∷ cs) n = if discriminant c == n then c else find_type cs n

pub find_type-discriminant : (c : CommandType) → find_type variants (discriminant c) ≡ c
unfolding find_type discriminant
find_type-discriminant c = ground arith

pub find_type-default :
    (cs : List CommandType) (n : ℕ)
    → ((c : CommandType) → discriminant c ≢ n)
    → find_type cs n ≡ invalid
unfolding find_type
find_type-default [] n h = refl
find_type-default (c ∷ cs) n h = ground (arith, h c, find_type-default cs n h)

instance abbrev pub command_types : FromPrimitive CommandType discriminant invalid
command_types = record {
  from = find_type variants;
  from-discriminant = find_type-discriminant;
  from-default = find_type-default variants;
}
