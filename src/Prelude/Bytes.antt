-- ===== src/Prelude/Bytes.antt =====
-- Numbers as big-endian bytes (`to_be_bytes`, `from_be_bytes`, `write_u32`, `read_u32`).
use tunnelbridge.Prelude.Lists.{length, length-append, All}
use Prim.Native.Nat.{ℕ, zero, suc, ◌+◌, ◌*◌, ◌/◌, ◌%◌, ◌^◌, ◌<◌}
use mathlib.Core.Path.{◌≡◌, refl, ap, ◌∙◌}
use mathlib.Core.List.{List, [], ◌∷◌, ◌++◌, reverse, reverse-reverse, reverse-cons}
use native.Mathlib.Omega.{arith}
use native.Mathlib.Nat.{pow-suc}

abbrev pub IsByte : ℕ → Type 0
IsByte b = b < 256

-- The least significant byte first.
le_bytes : ℕ → ℕ → List ℕ
le_bytes zero n = []
le_bytes (suc w) n = (n % 256) ∷ le_bytes w (n / 256)

le_value : List ℕ → ℕ
le_value [] = 0
le_value (b ∷ bs) = b + 256 * le_value bs

unfoldable pub be_bytes : ℕ → ℕ → List ℕ
unfolding le_bytes
be_bytes w n = reverse (le_bytes w n)

unfoldable pub be_value : List ℕ → ℕ
unfolding le_value
be_value bs = le_value (reverse bs)

length-reverse : (bs : List ℕ) → length (reverse bs) ≡ length bs
length-reverse [] = refl
length-reverse (b ∷ bs) =
    omega
      (arith, ap length (reverse-cons b bs), length-append (reverse bs) (b ∷ []), length-reverse bs)

length-le_bytes : (w n : ℕ) → length (le_bytes w n) ≡ w
unfolding le_bytes
length-le_bytes zero n = refl
length-le_bytes (suc w) n = ap suc (length-le_bytes w (n / 256))

le_value-le_bytes : (w n : ℕ) → n < 256 ^ w → le_value (le_bytes w n) ≡ n
unfolding le_value le_bytes
le_value-le_bytes zero n h = omega arith
le_value-le_bytes (suc w) n h =
    let b : 256 ^ suc w ≡ 256 ^ w * 256 = pow-suc 256 w in
    omega (arith, b, le_value-le_bytes w (n / 256) (omega (arith, b)))

le_bytes-le_value :
    (w : ℕ) (bs : List ℕ) → length bs ≡ w → All IsByte bs → le_bytes w (le_value bs) ≡ bs
unfolding le_value le_bytes
le_bytes-le_value zero [] e h = refl
le_bytes-le_value zero (b ∷ bs) e h = absurd (omega arith)
le_bytes-le_value (suc w) [] e h = absurd (omega arith)
le_bytes-le_value (suc w) (b ∷ bs) e h =
    let low : (b + 256 * le_value bs) % 256 ≡ b = omega (arith, h.0) in
    let high : (b + 256 * le_value bs) / 256 ≡ le_value bs = omega (arith, h.0) in
    cc (low, high, le_bytes-le_value w bs (omega arith) h.1)

All-append : (xs ys : List ℕ) → All IsByte xs → All IsByte ys → All IsByte (xs ++ ys)
All-append [] ys hx hy = hy
All-append (x ∷ xs) ys hx hy = (hx.0, All-append xs ys hx.1 hy)

All-reverse : (xs : List ℕ) → All IsByte xs → All IsByte (reverse xs)
All-reverse [] h = tt
All-reverse (x ∷ xs) h =
    rw (reverse-cons x xs) (All-append (reverse xs) (x ∷ []) (All-reverse xs h.1) (h.0, tt))

pub length-be_bytes : (w n : ℕ) → length (be_bytes w n) ≡ w
unfolding be_bytes
length-be_bytes w n = length-reverse (le_bytes w n) ∙ length-le_bytes w n

pub be_value-be_bytes : (w n : ℕ) → n < 256 ^ w → be_value (be_bytes w n) ≡ n
unfolding be_bytes be_value
be_value-be_bytes w n h = rw (reverse-reverse (le_bytes w n)) (le_value-le_bytes w n h)

pub be_bytes-be_value :
    (w : ℕ) (bs : List ℕ) → length bs ≡ w → All IsByte bs → be_bytes w (be_value bs) ≡ bs
unfolding be_bytes be_value
be_bytes-be_value w bs e h =
    ap reverse (le_bytes-le_value w (reverse bs) (length-reverse bs ∙ e) (All-reverse bs h))
    ∙ reverse-reverse bs
