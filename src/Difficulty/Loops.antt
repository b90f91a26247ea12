-- ===== src/Difficulty/Loops.antt =====
-- The loops over the array, against plain recursions on the list of its entries.
use crain.Prelude.{
  ℕ, zero, suc, ◌+◌, ◌-◌, ◌<◌, ◌≡◌, refl, ap, ◌∙◌, [], ◌∷◌, ◌++◌, Option, done, map_done, arith,
  length, length-append, replicate, none, ◌*◌, Outcome-cases, inl, inr,
}
use crain.Prelude.Machine.{Build, checked, add, add-eq_of_lt, u128_mod, u256_mod}
use crain.Difficulty.Entries.{
  DifficultyAndTimestamp, Window, index, store, shift_loop, delta, delta_loop, entry_difficulty,
  diff_loop,
}

-- The time that the entries of a window span, pair by pair.
abbrev pub elapsed : ℕ → Window → ℕ
elapsed block_time [] = 0
elapsed block_time (x ∷ []) = 0
elapsed block_time (x ∷ y ∷ rest) = delta block_time x y + elapsed block_time (y ∷ rest)

-- The sum of the difficulties that the entries count with.
abbrev pub total_difficulty : ℕ → Window → ℕ
total_difficulty initial [] = 0
total_difficulty initial (x ∷ rest) = entry_difficulty initial x + total_difficulty initial rest

-- Missing entries count with the initial difficulty.
pub total-missing :
    (initial k : ℕ) (w : Window)
    → total_difficulty initial (replicate k none ++ w) ≡ k * initial + total_difficulty initial w
unfolding entry_difficulty
total-missing initial zero w = omega arith
total-missing initial (suc k) w = omega (arith, total-missing initial k w)

pub last_of : Option DifficultyAndTimestamp → Window → Option DifficultyAndTimestamp
last_of x [] = x
last_of x (y ∷ rest) = last_of y rest

-- A loop that starts one entry further on leaves the first entry alone.
shift_loop-cons :
    (n j : ℕ) (a : Option DifficultyAndTimestamp) (d : Window)
    → shift_loop n (suc j) (a ∷ d) ≡ map_done (λ r. a ∷ r) (shift_loop n j d)
unfolding shift_loop
shift_loop-cons zero j a d = refl
shift_loop-cons (suc n) j a d = elim (Outcome-cases (index d (suc j))) [
  | inl e ↦ rw e
  | inr (x, e) ↦ elim (Outcome-cases (store d j x)) [
    | inl f ↦ rw (e, f)
    | inr (d', f) ↦ rw (e, f) (shift_loop-cons n (suc j) a d')
  ]
]

-- Shifting moves every entry down by one place, and the last one stays too.
pub shift_loop_lem :
    (x : Option DifficultyAndTimestamp) (rest : Window)
    → shift_loop (length rest) 0 (x ∷ rest) ≡ done (rest ++ (last_of x rest ∷ []))
unfolding shift_loop last_of
shift_loop_lem x [] = refl
shift_loop_lem x (y ∷ rest) =
    shift_loop-cons (length rest) 0 y (y ∷ rest) ∙ ap (map_done _) (shift_loop_lem y rest)

store-append :
    (xs : Window) (a v : Option DifficultyAndTimestamp)
    → store (xs ++ (a ∷ [])) (length xs) v ≡ done (xs ++ (v ∷ []))
unfolding store
store-append [] a v = refl
store-append (x ∷ xs) a v = rw (store-append xs a v)

-- Writing the last entry.
pub store_last :
    (xs : Window) (a v : Option DifficultyAndTimestamp)
    → store (xs ++ (a ∷ [])) (length (xs ++ (a ∷ [])) - 1) v ≡ done (xs ++ (v ∷ []))
store_last xs a v = rw (at_end) (store-append xs a v)
  where
    at_end : length (xs ++ (a ∷ [])) - 1 ≡ length xs
    at_end = omega (arith, length-append xs (a ∷ []))

module _ (b : Build) (block_time : ℕ) where
  delta_loop-cons :
      (n j : ℕ) (a : Option DifficultyAndTimestamp) (d : Window) (acc : ℕ)
      → delta_loop b block_time n (suc j) (a ∷ d) acc ≡ delta_loop b block_time n j d acc
  unfolding delta_loop
  delta_loop-cons zero j a d acc = refl
  delta_loop-cons (suc n) j a d acc = elim (Outcome-cases (index d j)) [
    | inl e ↦ rw e
    | inr (x, e) ↦ elim (Outcome-cases (index d (suc j))) [
      | inl f ↦ rw (e, f)
      | inr (y, f) ↦ elim (Outcome-cases (add u128_mod b acc (delta block_time x y))) [
        | inl g ↦ rw (e, f, g)
        | inr (s, g) ↦ rw (e, f, g) (delta_loop-cons n (suc j) a d s)
      ]
    ]
  ]

  pub delta_loop_lem :
      (x : Option DifficultyAndTimestamp) (rest : Window) (acc : ℕ)
      → acc + elapsed block_time (x ∷ rest) < u128_mod
      → delta_loop b block_time (length rest) 0 (x ∷ rest) acc
        ≡ done (acc + elapsed block_time (x ∷ rest))
  unfolding delta_loop
  delta_loop_lem x [] acc h = ap done (omega arith)
  delta_loop_lem x (y ∷ rest) acc h =
      rw
        (
          add-eq_of_lt u128_mod b acc (delta block_time x y) (omega arith),
          delta_loop-cons (length rest) 0 x (y ∷ rest) (acc + delta block_time x y),
          delta_loop_lem y rest (acc + delta block_time x y) (omega arith),
        )
        (ap done (omega arith))

module _ (initial : ℕ) where
  diff_loop-cons :
      (n i : ℕ) (a : Option DifficultyAndTimestamp) (d : Window) (acc : ℕ)
      → diff_loop initial n (suc i) (a ∷ d) acc ≡ diff_loop initial n i d acc
  unfolding diff_loop
  diff_loop-cons zero i a d acc = refl
  diff_loop-cons (suc n) i a d acc = elim (Outcome-cases (index d i)) [
    | inl e ↦ rw e
    | inr (x, e) ↦ elim (Outcome-cases (add u256_mod checked acc (entry_difficulty initial x))) [
      | inl f ↦ rw (e, f)
      | inr (s, f) ↦ rw (e, f) (diff_loop-cons n (suc i) a d s)
    ]
  ]

  pub diff_loop_lem :
      (d : Window) (acc : ℕ)
      → acc + total_difficulty initial d < u256_mod
      → diff_loop initial (length d) 0 d acc ≡ done (acc + total_difficulty initial d)
  unfolding diff_loop
  diff_loop_lem [] acc h = ap done (omega arith)
  diff_loop_lem (x ∷ d) acc h =
      rw
        (
          add-eq_of_lt u256_mod checked acc (entry_difficulty initial x) (omega arith),
          diff_loop-cons (length d) 0 x d (acc + entry_difficulty initial x),
          diff_loop_lem d (acc + entry_difficulty initial x) (omega arith),
        )
        (ap done (omega arith))
