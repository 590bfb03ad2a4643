-- ===== src/Agent/Reconnect/Delays.antt =====
-- The delays of `run_reconnecting` in desktop/src-tauri/src/agent.rs.
use tunnelbridge.Prelude.{
  ℕ, zero, suc, ◌+◌, ◌*◌, ◌^◌, ◌≤◌, ◌-◌, leb, min, ◌≡◌, refl, subst, some, none, Option, List, [],
  ◌∷◌, All, arith, Bool-cases, inl, inr,
}
use native.Mathlib.Numerals.{towards_suc}
use tunnelbridge.Agent.Runtime.{RuntimeState}
use tunnelbridge.Agent.Dispatch.{next_attempt, delay}
use tunnelbridge.Agent.Reconnect.{Turn, connect, reconnect, run_reconnecting}

-- The element at a position.
abbrev pub nth : List ℕ → ℕ → Option ℕ
nth [] n = none
nth (x ∷ xs) zero = some x
nth (x ∷ xs) (suc n) = nth xs n

pow_pos : (k : ℕ) → 1 ≤ 2 ^ k
pow_pos zero = omega arith
pow_pos (suc k) = omega (arith, pow_pos k)

pow_large : (k : ℕ) → 256 ≤ 2 ^ (k + 8)
pow_large k =
    let big : 2 ^ (k + 8) ≡ 256 * 2 ^ k = simp towards_suc (omega arith) in omega (arith, pow_pos k)

-- Above 8 the exponent makes no difference.
base_lem : (n : ℕ) → min (2 ^ min n 8) 60 ≡ min (2 ^ n) 60
base_lem n = elim (Bool-cases (leb n 8)) [
  | inl e ↦ let low : min n 8 ≡ n = ground arith in rw low refl
  | inr e ↦
      let high : min n 8 ≡ 8 = ground arith in
      let there : (n - 8) + 8 ≡ n = ground arith in
      let big : 256 ≤ 2 ^ n = rw there at (pow_large (n - 8)) in rw high (omega arith)
]

next_lem : (n : ℕ) → next_attempt (min n 8) ≡ min (suc n) 8
unfolding next_attempt
next_lem n = omega arith

module _ (a : ℕ) (s : RuntimeState) (t : Turn) (ts : List Turn) (d : ℕ) where
  first_delay : nth (reconnect a s (t ∷ ts)).0 zero ≡ some d → delay (next_attempt a) t.jitter ≡ d
  unfolding reconnect
  first_delay h = ground arith

  later_delay :
      (i : ℕ)
      → nth (reconnect a s (t ∷ ts)).0 (suc i) ≡ some d
      → nth (reconnect (next_attempt a) (connect t s).1 ts).0 i ≡ some d
  unfolding reconnect
  later_delay i h = ground arith

delay_lem :
    (n jitter : ℕ)
    → jitter ≤ 1000
    → (min (2 ^ n) 60 * 1000 ≤ delay (min n 8) jitter)
      × (delay (min n 8) jitter ≤ min (2 ^ n) 60 * 1000 + 1000)
unfolding delay
delay_lem n jitter h = let e = base_lem n in (omega (arith, e), omega (arith, e))

-- The delays of the turns from the `n`th on.
nth-reconnect :
    (n : ℕ) (s : RuntimeState) (turns : List Turn) (i d : ℕ)
    → All (λ t. t.jitter ≤ 1000) turns
    → nth (reconnect (min n 8) s turns).0 i ≡ some d
    → (min (2 ^ (i + suc n)) 60 * 1000 ≤ d) × (d ≤ min (2 ^ (i + suc n)) 60 * 1000 + 1000)
nth-reconnect n s [] i d small h = unfold reconnect in cc
nth-reconnect n s (t ∷ ts) zero d small h =
    let e = first_delay (min n 8) s t ts d h in
    let from : 0 + suc n ≡ suc n = omega arith in
    rw from (
      subst (λ (x : ℕ). (min (2 ^ suc n) 60 * 1000 ≤ x) × (x ≤ min (2 ^ suc n) 60 * 1000 + 1000))
        (rw (next_lem n) at e) (delay_lem (suc n) t.jitter small.0))
nth-reconnect n s (t ∷ ts) (suc i) d small h =
    let later = rw (next_lem n) at (later_delay (min n 8) s t ts d i h) in
    let shift : i + suc (suc n) ≡ suc i + suc n = omega arith in
    rw shift at (nth-reconnect (suc n) (connect t s).1 ts i d small.1 later)

-- However the agent's connections go, and also after connections that succeeded, the wait that follows
-- the `i`th one, counted from 0, takes the lesser of 2 ^ (i + 1) seconds and a minute, and at most a second
-- more, if every draw is at most 1000 milliseconds.
pub run_reconnecting_lem :
    (s : RuntimeState) (turns : List Turn) (i d : ℕ)
    → All (λ t. t.jitter ≤ 1000) turns
    → nth (run_reconnecting s turns).0 i ≡ some d
    → (min (2 ^ (i + 1)) 60 * 1000 ≤ d) × (d ≤ min (2 ^ (i + 1)) 60 * 1000 + 1000)
unfolding run_reconnecting
run_reconnecting_lem s turns i d small h = nth-reconnect 0 s turns i d small h
