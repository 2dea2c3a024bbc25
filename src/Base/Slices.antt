-- ===== src/Base/Slices.antt =====
-- Slices of a buffer: what the source reads and writes through `buf[from..to]`, which panics if the buffer
-- is shorter or the range is not in order.
use Prim.Native.Nat.{ℕ, zero, suc, ◌+◌, ◌-◌, ◌≤◌, ◌<◌}
use mathlib.Core.Path.{◌≡◌, refl, ap, sym, ◌∙◌}
use mathlib.Core.Bool.{◌&&◌}
use mathlib.Core.List.{List, [], ◌∷◌, ◌++◌, append_assoc}
use mathlib.Core.Option.{Option, none, some}
use native.Mathlib.Omega.{arith}
use ethercat.Base.Lists.{length, take, drop, set, length-append, length-take, take-append-drop}
use ethercat.Base.Tests.{ltb, leb, if◌then◌else◌}

module _ {A : Type 0} where
  -- `buf[from..to]`.
  unfoldable pub slice : ℕ → ℕ → List A → Option (List A)
  slice from to buf =
      if leb from to && leb to (length buf) then some (take (to - from) (drop from buf)) else none

  -- `buf[from..]`.
  unfoldable pub slice_from : ℕ → List A → Option (List A)
  slice_from from buf = if leb from (length buf) then some (drop from buf) else none

  -- `buf[from..from + src.len()].copy_from_slice(src)`.
  unfoldable pub copy_at : ℕ → List A → List A → Option (List A)
  copy_at from src buf =
      if leb (from + length src) (length buf)
      then some (take from buf ++ (src ++ drop (from + length src) buf))
      else none

  -- `f(&mut buf[from..])`, for an `f` that keeps the length.
  unfoldable pub at_from : ℕ → (List A → Option (List A)) → List A → Option (List A)
  at_from from f buf =
      if leb from (length buf)
      then elim (f (drop from buf)) [ none ↦ none | some xs ↦ some (take from buf ++ xs) ]
      else none

  -- `buf[i] = v`.
  unfoldable pub set_at : ℕ → A → List A → Option (List A)
  set_at i v buf = if ltb i (length buf) then some (set buf i v) else none

  pub take_append : (xs ys : List A) (n : ℕ) → n ≡ length xs → take n (xs ++ ys) ≡ xs
  take_append [] ys zero h = refl
  take_append [] ys (suc n) h = absurd (omega arith)
  take_append (x ∷ xs) ys zero h = absurd (omega arith)
  take_append (x ∷ xs) ys (suc n) h = ap (◌∷◌ x) (take_append xs ys n (omega arith))

  pub drop_append : (xs ys : List A) (n : ℕ) → n ≡ length xs → drop n (xs ++ ys) ≡ ys
  drop_append [] ys zero h = refl
  drop_append [] ys (suc n) h = absurd (omega arith)
  drop_append (x ∷ xs) ys zero h = absurd (omega arith)
  drop_append (x ∷ xs) ys (suc n) h = drop_append xs ys n (omega arith)

  pub set_append :
      (xs ys : List A) (i k : ℕ) (v : A) → i ≡ length xs + k → set (xs ++ ys) i v ≡ xs ++ set ys k v
  set_append [] ys i k v h = ap (λ j. set ys j v) (omega arith)
  set_append (x ∷ xs) ys zero k v h = absurd (omega arith)
  set_append (x ∷ xs) ys (suc i) k v h = ap (◌∷◌ x) (set_append xs ys i k v (omega arith))

  -- A list splits at any place within it.
  pub split_at :
      (n : ℕ) (xs : List A) → n ≤ length xs → (ys zs : List A) × (xs ≡ ys ++ zs) × (length ys ≡ n)
  split_at n xs h =
      (take n xs, drop n xs, sym (take-append-drop n xs), omega (arith, length-take n xs))

  pub slice-some :
      (from to : ℕ) (xs : List A)
      → from ≤ to
      → to ≤ length xs
      → slice from to xs ≡ some (take (to - from) (drop from xs))
  unfolding slice
  slice-some from to xs h k = ground arith

  pub slice_from-some :
      (from : ℕ) (xs : List A) → from ≤ length xs → slice_from from xs ≡ some (drop from xs)
  unfolding slice_from
  slice_from-some from xs h = ground arith

  pub slice-append :
      (xs ys zs : List A) (from to : ℕ)
      → from ≡ length xs
      → to ≡ length xs + length ys
      → slice from to (xs ++ (ys ++ zs)) ≡ some ys
  slice-append xs ys zs from to e f =
      slice-some from to (xs ++ (ys ++ zs)) (omega arith)
        (omega (arith, length-append xs (ys ++ zs), length-append ys zs))
      ∙ ap some (
          ap (take (to - from)) (drop_append xs (ys ++ zs) from e)
          ∙ take_append ys zs (to - from) (omega arith))

  pub slice_from-append :
      (xs ys : List A) (from : ℕ) → from ≡ length xs → slice_from from (xs ++ ys) ≡ some ys
  unfolding slice_from
  slice_from-append xs ys from e = ground (arith, length-append xs ys, drop_append xs ys from e)

  copy_at-some :
      (from : ℕ) (src buf : List A)
      → from + length src ≤ length buf
      → copy_at from src buf ≡ some (take from buf ++ (src ++ drop (from + length src) buf))
  unfolding copy_at
  copy_at-some from src buf h = ground arith

  pub copy_at-append :
      (xs ys zs src : List A) (from : ℕ)
      → from ≡ length xs
      → length src ≡ length ys
      → copy_at from src (xs ++ (ys ++ zs)) ≡ some (xs ++ (src ++ zs))
  copy_at-append xs ys zs src from e f =
      copy_at-some from src (xs ++ (ys ++ zs))
        (omega (arith, length-append xs (ys ++ zs), length-append ys zs))
      ∙ ap (λ v. some (v ++ (src ++ drop (from + length src) (xs ++ (ys ++ zs)))))
          (take_append xs (ys ++ zs) from e)
      ∙ ap (λ v. some (xs ++ (src ++ v)))
          (ap (drop (from + length src)) (sym (append_assoc xs ys zs))
            ∙ drop_append (xs ++ ys) zs (from + length src) (omega (arith, length-append xs ys)))

  at_from-some :
      (from : ℕ) (f : List A → Option (List A)) (buf ys : List A)
      → from ≤ length buf
      → f (drop from buf) ≡ some ys
      → at_from from f buf ≡ some (take from buf ++ ys)
  unfolding at_from
  at_from-some from f buf ys h g = rw g (ground arith)

  pub at_from-append :
      (xs ys ys' : List A) (from : ℕ) (f : List A → Option (List A))
      → from ≡ length xs
      → f ys ≡ some ys'
      → at_from from f (xs ++ ys) ≡ some (xs ++ ys')
  at_from-append xs ys ys' from f e g =
      at_from-some from f (xs ++ ys) ys' (omega (arith, length-append xs ys))
        (ap f (drop_append xs ys from e) ∙ g)
      ∙ ap (λ v. some (v ++ ys')) (take_append xs ys from e)

  pub set_at-append :
      (xs ys : List A) (i k : ℕ) (v : A)
      → i ≡ length xs + k
      → k < length ys
      → set_at i v (xs ++ ys) ≡ some (xs ++ set ys k v)
  unfolding set_at
  set_at-append xs ys i k v e h =
      rw (set_append xs ys i k v e) (ground (arith, length-append xs ys))

  pub set_at-none : (i : ℕ) (v : A) (xs : List A) → length xs ≤ i → set_at i v xs ≡ none
  unfolding set_at
  set_at-none i v xs h = ground arith
