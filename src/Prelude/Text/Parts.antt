-- ===== src/Prelude/Text/Parts.antt =====
-- Texts that have no separator and no blank.
use tunnelbridge.Prelude.Tests.{◌==◌, nat_eq}
use tunnelbridge.Prelude.Lists.{all}
use tunnelbridge.Prelude.Text.{Text, split, trim, drop_start, drop_end, is_whitespace}
use Prim.Native.Nat.{ℕ}
use mathlib.Core.Path.{◌≡◌, refl}
use mathlib.Core.Bool.{Bool, true, not}
use mathlib.Core.List.{[], ◌∷◌}
use native.Mathlib.Omega.{arith}

pub split_none : (sep : ℕ) (t : Text) → all (λ c. not (c == sep)) t ≡ true → split sep t ≡ t ∷ []
unfolding split all
split_none sep [] h = refl
split_none sep (c ∷ t) h = ground (arith, split_none sep t)

drop_start_none : (p : ℕ → Bool) (t : Text) → all (λ c. not (p c)) t ≡ true → drop_start p t ≡ t
unfolding drop_start all
drop_start_none p [] h = refl
drop_start_none p (c ∷ t) h = ground arith

drop_end_none : (p : ℕ → Bool) (t : Text) → all (λ c. not (p c)) t ≡ true → drop_end p t ≡ t
unfolding drop_end all
drop_end_none p [] h = refl
drop_end_none p (c ∷ t) h = ground (arith, drop_end_none p t)

pub trim_none : (t : Text) → all (λ c. not (is_whitespace c)) t ≡ true → trim t ≡ t
trim_none t h =
    unfold trim in rw (drop_start_none is_whitespace t h) (drop_end_none is_whitespace t h)
