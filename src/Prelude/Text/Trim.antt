-- ===== src/Prelude/Text/Trim.antt =====
-- The length of a trimmed text.
use tunnelbridge.Prelude.Lists.{length}
use tunnelbridge.Prelude.Text.{Text, is_whitespace, drop_start, drop_end, trim}
use Prim.Native.Nat.{ℕ, ◌≤◌}
use mathlib.Core.Bool.{Bool}
use mathlib.Core.List.{[], ◌∷◌}
use native.Mathlib.Omega.{arith}

length-drop_start : (p : ℕ → Bool) (t : Text) → length (drop_start p t) ≤ length t
unfolding drop_start
length-drop_start p [] = omega arith
length-drop_start p (c ∷ t) = ground (arith, length-drop_start p t)

length-drop_end : (p : ℕ → Bool) (t : Text) → length (drop_end p t) ≤ length t
unfolding drop_end
length-drop_end p [] = omega arith
length-drop_end p (c ∷ t) = ground (arith, length-drop_end p t)

pub length-trim : (t : Text) → length (trim t) ≤ length t
length-trim t =
    unfold trim in
    omega (
      arith,
      length-drop_end is_whitespace (drop_start is_whitespace t),
      length-drop_start is_whitespace t,
    )
