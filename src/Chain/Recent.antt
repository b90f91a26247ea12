-- ===== src/Chain/Recent.antt =====
-- The array of the difficulty pallet as the window of a history: how a block moves it on, and what
-- the pallet's two sums over it are.
use mathlib.Core.List.{map-append, append_assoc}
use crain.Prelude.{
  ℕ, zero, suc, ◌+◌, ◌-◌, ◌*◌, ◌≤◌, ◌<◌, ◌≡◌, refl, ap, sym, ◌∙◌, inl, inr, Bool-cases, ltb, ltb→lt,
  ltb_false→le, List, [], ◌∷◌, ◌++◌, map, some, none, arith, length, length-append, drop, replicate,
}
use crain.Difficulty.{DifficultyAndTimestamp}
use crain.Difficulty.Loops.{elapsed, total_difficulty}
use crain.Chain.History.{
  History, recent, first_stamp, last_stamp, work_in, Rises, missing, window_of, Rises-drop,
  elapsed-some, elapsed-missing, total-some,
}
use crain.Difficulty.Loops.{total-missing}

module _ {ℓ} {A : Type ℓ} where
  drop-append_one :
      (n : ℕ) (xs : List A) (y : A)
      → n ≤ length xs
      → drop n (xs ++ (y ∷ [])) ≡ drop n xs ++ (y ∷ [])
  drop-append_one zero xs y h = refl
  drop-append_one (suc n) [] y h = absurd (omega arith)
  drop-append_one (suc n) (x ∷ xs) y h = drop-append_one n xs y (omega arith)

  drop-suc : (n : ℕ) (xs : List A) → drop (suc n) xs ≡ drop 1 (drop n xs)
  drop-suc zero xs = refl
  drop-suc (suc n) [] = refl
  drop-suc (suc n) (x ∷ xs) = drop-suc n xs

  drop_non_empty :
      (n : ℕ) (xs : List A) → n < length xs → (y : A) × (r : List A) × (drop n xs ≡ y ∷ r)
  drop_non_empty n [] h = absurd (omega arith)
  drop_non_empty zero (x ∷ xs) h = (x, xs, refl)
  drop_non_empty (suc n) (x ∷ xs) h = drop_non_empty n xs (omega arith)

  drop_one-append : (xs ys : List A) → 0 < length xs → drop 1 (xs ++ ys) ≡ drop 1 xs ++ ys
  drop_one-append [] ys h = absurd (omega arith)
  drop_one-append (x ∷ xs) ys h = refl

map-drop_one : (h : History) → map some (drop 1 h) ≡ drop 1 (map some h)
map-drop_one [] = refl
map-drop_one (x ∷ h) = refl

-- While the window is not full, and once it is.
window_of-few :
    (h : History) (e : DifficultyAndTimestamp) (k : ℕ)
    → length h + suc k ≡ 60
    → window_of (h ++ (e ∷ [])) ≡ drop 1 (window_of h) ++ (some e ∷ [])
window_of-few h e k few =
    rw (new_missing, new_start, old_missing, old_start)
      (ap (λ w. replicate k none ++ w) (map-append some h (e ∷ []))
        ∙ sym (append_assoc (replicate k none) (map some h) (some e ∷ [])))
  where
    new_missing : 60 - length (h ++ (e ∷ [])) ≡ k
    new_missing = omega (arith, length-append h (e ∷ []))

    new_start : length (h ++ (e ∷ [])) - 60 ≡ 0
    new_start = omega (arith, length-append h (e ∷ []))

    old_missing : 60 - length h ≡ suc k
    old_missing = omega arith

    old_start : length h - 60 ≡ 0
    old_start = omega arith

window_of-many :
    (h : History) (e : DifficultyAndTimestamp) (j : ℕ)
    → length h ≡ 60 + j
    → window_of (h ++ (e ∷ [])) ≡ drop 1 (window_of h) ++ (some e ∷ [])
window_of-many h e j many =
    rw (new_missing, new_start, old_missing, old_start)
      (ap (map some)
          (drop-append_one (suc j) h e (omega arith) ∙ ap (λ l. l ++ (e ∷ [])) (drop-suc j h))
        ∙ map-append some (drop 1 (drop j h)) (e ∷ [])
        ∙ ap (λ l. l ++ (some e ∷ [])) (map-drop_one (drop j h)))
  where
    new_missing : 60 - length (h ++ (e ∷ [])) ≡ 0
    new_missing = omega (arith, length-append h (e ∷ []))

    new_start : length (h ++ (e ∷ [])) - 60 ≡ suc j
    new_start = omega (arith, length-append h (e ∷ []))

    old_missing : 60 - length h ≡ 0
    old_missing = omega arith

    old_start : length h - 60 ≡ j
    old_start = omega arith

-- A block moves the window on by one entry.
pub window_of-append :
    (h : History) (e : DifficultyAndTimestamp)
    → window_of (h ++ (e ∷ [])) ≡ drop 1 (window_of h) ++ (some e ∷ [])
window_of-append h e = elim (Bool-cases (ltb (length h) 60)) [
  | inl few ↦ window_of-few h e (59 - length h) (omega (arith, ltb→lt _ _ few))
  | inr many ↦ window_of-many h e (length h - 60) (omega (arith, ltb_false→le _ _ many))
]

elapsed-parts :
    (t k : ℕ) (l r : History) (y : DifficultyAndTimestamp)
    → l ≡ y ∷ r
    → Rises l
    → elapsed t (replicate k none ++ map some l) ≡ k * t + (last_stamp l - first_stamp l)
elapsed-parts t k [] r y e s = absurd (ground arith)
elapsed-parts t k (x ∷ l) r y e s =
    elapsed-missing t k x (map some l) ∙ ap (λ n. k * t + n) (elapsed-some t (x ∷ l) s)

-- The pallet's two sums over the window of a history that is not empty.
module _ (x : DifficultyAndTimestamp) (h : History) where
  recent_non_empty : (y : DifficultyAndTimestamp) × (r : History) × (recent (x ∷ h) ≡ y ∷ r)
  recent_non_empty = drop_non_empty (length (x ∷ h) - 60) (x ∷ h) (omega arith)

  pub elapsed-window_of :
      (t : ℕ)
      → Rises (x ∷ h)
      → elapsed t (window_of (x ∷ h))
        ≡ missing (x ∷ h) * t + (last_stamp (recent (x ∷ h)) - first_stamp (recent (x ∷ h)))
  elapsed-window_of t s =
      let (y, r, e) = recent_non_empty in
      elapsed-parts t (missing (x ∷ h)) (recent (x ∷ h)) r y e
        (Rises-drop (length (x ∷ h) - 60) (x ∷ h) s)

  pub total-window_of :
      (initial : ℕ)
      → total_difficulty initial (window_of (x ∷ h))
        ≡ missing (x ∷ h) * initial + work_in (recent (x ∷ h))
  total-window_of initial =
      total-missing initial (missing (x ∷ h)) (map some (recent (x ∷ h)))
      ∙ ap (λ n. missing (x ∷ h) * initial + n) (total-some initial (recent (x ∷ h)))
