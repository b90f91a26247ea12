-- ===== src/Difficulty/Climb.antt =====
-- Windows of the pallet in pallets/difficulty/src/lib.rs whose gaps are all one block time, and
-- whose difficulties rise.
use crain.Prelude.{
  ℕ, zero, suc, ◌+◌, ◌-◌, ◌*◌, ◌≤◌, ◌≡◌, refl, [], ◌∷◌, ◌++◌, none, some, arith, length, drop,
  replicate,
}
use native.Mathlib.Nat.{mul-le-mul_right}
use crain.Primitives.{block_time}
use crain.Difficulty.Entries.{DifficultyAndTimestamp, Window, delta, entry_difficulty}
use crain.Difficulty.Loops.{elapsed, total_difficulty}

-- Every gap of the window counts as one block time.
abbrev pub Spaced : Window → Type 0
Spaced [] = Unit
Spaced (x ∷ []) = Unit
Spaced (x ∷ y ∷ w) = (delta block_time x y ≡ block_time) × Spaced (y ∷ w)

pub elapsed-Spaced : (w : Window) → Spaced w → elapsed block_time w ≡ (length w - 1) * block_time
elapsed-Spaced [] h = omega arith
elapsed-Spaced (x ∷ []) h = omega arith
elapsed-Spaced (x ∷ y ∷ w) h = omega (arith, h.0, elapsed-Spaced (y ∷ w) h.1)

pub Spaced-append :
    (w : Window) (d e : DifficultyAndTimestamp)
    → Spaced (w ++ (some d ∷ []))
    → e.timestamp ≡ d.timestamp + block_time
    → Spaced ((w ++ (some d ∷ [])) ++ (some e ∷ []))
unfolding delta
Spaced-append [] d e h k = (omega arith, tt)
Spaced-append (x ∷ []) d e h k = (h.0, (omega arith, tt))
Spaced-append (x ∷ y ∷ w) d e h k = (h.0, Spaced-append (y ∷ w) d e h.1 k)

pub Spaced-drop : (w : Window) → Spaced w → Spaced (drop 1 w)
Spaced-drop [] h = tt
Spaced-drop (x ∷ []) h = tt
Spaced-drop (x ∷ y ∷ w) h = h.1

pub Spaced-missing :
    (n : ℕ) (d : DifficultyAndTimestamp) → Spaced (replicate n none ++ (some d ∷ []))
unfolding delta
Spaced-missing zero d = tt
Spaced-missing (suc zero) d = (refl, tt)
Spaced-missing (suc (suc n)) d = (refl, Spaced-missing (suc n) d)

-- The difficulties of the window rise from a lower bound to an upper one.
abbrev pub Climbs : ℕ → ℕ → Window → ℕ → Type 0
Climbs initial low [] top = low ≤ top
Climbs initial low (x ∷ w) top =
    (low ≤ entry_difficulty initial x) × Climbs initial (entry_difficulty initial x) w top

pub Climbs-weaken :
    (initial low low' : ℕ) (w : Window) (top : ℕ)
    → low' ≤ low
    → Climbs initial low w top
    → Climbs initial low' w top
Climbs-weaken initial low low' [] top h c = omega arith
Climbs-weaken initial low low' (x ∷ w) top h c = (omega (arith, c.0), c.1)

pub Climbs-append :
    (initial low : ℕ) (w : Window) (d : DifficultyAndTimestamp) (top : ℕ)
    → Climbs initial low w d.difficulty
    → d.difficulty ≤ top
    → Climbs initial low (w ++ (some d ∷ [])) top
unfolding entry_difficulty
Climbs-append initial low [] d top c h = (c, h)
Climbs-append initial low (x ∷ w) d top c h =
    (c.0, Climbs-append initial (entry_difficulty initial x) w d top c.1 h)

pub Climbs-le : (initial low : ℕ) (w : Window) (top : ℕ) → Climbs initial low w top → low ≤ top
Climbs-le initial low [] top c = c
Climbs-le initial low (x ∷ w) top c =
    omega (arith, c.0, Climbs-le initial (entry_difficulty initial x) w top c.1)

pub total-Climbs :
    (initial low : ℕ) (w : Window) (top : ℕ)
    → Climbs initial low w top
    → length w * low ≤ total_difficulty initial w
total-Climbs initial low [] top c = omega arith
total-Climbs initial low (x ∷ w) top c =
    let rest = total-Climbs initial (entry_difficulty initial x) w top c.1 in
    let wider = mul-le-mul_right (length w) c.0 in omega (arith, rest, wider)

pub total-append :
    (initial : ℕ) (w : Window) (d : DifficultyAndTimestamp)
    → total_difficulty initial (w ++ (some d ∷ [])) ≡ total_difficulty initial w + d.difficulty
unfolding entry_difficulty
total-append initial [] d = omega arith
total-append initial (x ∷ w) d = omega (arith, total-append initial w d)

-- The oldest of the entries.
pub oldest :
    (initial : ℕ) (w : Window) (top : ℕ)
    → length w ≡ 60
    → Climbs initial 179 w top
    → (x : ℕ) × (total_difficulty initial w ≡ x + total_difficulty initial (drop 1 w))
      × (179 ≤ x)
      × (60 * x ≤ total_difficulty initial w)
      × (x ≤ top)
oldest initial [] top e c = absurd (omega arith)
oldest initial (x ∷ w) top e c =
    let d = entry_difficulty initial x in
    let l : length w ≡ 59 = omega arith in
    let sum : 59 * d ≤ total_difficulty initial w = rw (← l) (total-Climbs initial d w top c.1) in
    (d, refl, c.0, omega arith, Climbs-le initial d w top c.1)

pub Climbs-drop :
    (initial low : ℕ) (w : Window) (top : ℕ)
    → Climbs initial low w top
    → Climbs initial low (drop 1 w) top
Climbs-drop initial low [] top c = c
Climbs-drop initial low (x ∷ w) top c =
    Climbs-weaken initial (entry_difficulty initial x) low w top c.0 c.1

pub Spaced-next :
    (w : Window) (d e : DifficultyAndTimestamp)
    → Spaced (w ++ (some d ∷ []))
    → e.timestamp ≡ d.timestamp + block_time
    → Spaced (drop 1 (w ++ (some d ∷ [])) ++ (some e ∷ []))
Spaced-next [] d e h k = tt
Spaced-next (x ∷ w) d e h k = Spaced-append w d e (Spaced-drop (x ∷ (w ++ (some d ∷ []))) h) k

pub Climbs-missing :
    (initial low n : ℕ) → low ≤ initial → Climbs initial low (replicate n none) initial
unfolding entry_difficulty
Climbs-missing initial low zero h = h
Climbs-missing initial low (suc n) h = (h, Climbs-missing initial initial n (omega arith))
