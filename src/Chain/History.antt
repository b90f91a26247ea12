-- ===== src/Chain/History.antt =====
-- A chain's history as plain lists: the specification of its difficulty, which knows of no array.
use mathlib.Core.List.{append-nil, append_assoc}
use crain.Prelude.{
  ℕ, zero, suc, ◌+◌, ◌-◌, ◌*◌, ◌≤◌, ◌≡◌, refl, ap, sym, ◌∙◌, List, [], ◌∷◌, ◌++◌, map, some, none,
  arith, length, drop, replicate,
}
use crain.Primitives.{difficulty_adjust_window}
use crain.Difficulty.{DifficultyAndTimestamp, Window, delta, entry_difficulty}
use crain.Difficulty.Loops.{elapsed, total_difficulty}
use crain.Difficulty.Formula.{difficulty_for}

-- What the blocks so far carry, oldest first.
abbrev pub History : Type 0
History = List DifficultyAndTimestamp

-- The last sixty blocks, or all of them if there are fewer.
abbrev pub recent : History → History
recent h = drop (length h - difficulty_adjust_window) h

abbrev pub first_stamp : History → ℕ
first_stamp [] = 0
first_stamp (x ∷ h) = x.timestamp

abbrev pub last_stamp : History → ℕ
last_stamp [] = 0
last_stamp (x ∷ []) = x.timestamp
last_stamp (x ∷ y ∷ h) = last_stamp (y ∷ h)

abbrev pub work_in : History → ℕ
work_in [] = 0
work_in (x ∷ h) = x.difficulty + work_in h

-- No block is older than the one before it.
abbrev pub Rises : History → Type 0
Rises [] = Unit
Rises (x ∷ []) = Unit
Rises (x ∷ y ∷ h) = (x.timestamp ≤ y.timestamp) × Rises (y ∷ h)

-- How many blocks are missing from a full window.
abbrev pub missing : History → ℕ
missing h = difficulty_adjust_window - length h

-- The difficulty of the next block: the first one's is the initial one. Later, the span from the
-- oldest to the newest of the last sixty blocks is measured, and their difficulties are added up; a
-- missing block counts as one block time and the initial difficulty.
abbrev pub difficulty_of : ℕ → ℕ → History → ℕ
difficulty_of block_time initial [] = initial
difficulty_of block_time initial (x ∷ h) =
    difficulty_for block_time
      (missing (x ∷ h) * block_time + (last_stamp (recent (x ∷ h)) - first_stamp (recent (x ∷ h))))
      (missing (x ∷ h) * initial + work_in (recent (x ∷ h)))

-- Each of the blocks that follow a history has the difficulty that the blocks before it say.
abbrev pub Follows : ℕ → ℕ → History → History → Type 0
Follows block_time initial before [] = Unit
Follows block_time initial before (x ∷ h) =
    (x.difficulty ≡ difficulty_of block_time initial before)
    × Follows block_time initial (before ++ (x ∷ [])) h

pub Follows-append :
    (t initial : ℕ) (before h : History) (e : DifficultyAndTimestamp)
    → Follows t initial before h
    → e.difficulty ≡ difficulty_of t initial (before ++ h)
    → Follows t initial before (h ++ (e ∷ []))
Follows-append t initial before [] e f d =
    (d ∙ ap (difficulty_of t initial) (append-nil before), tt)
Follows-append t initial before (x ∷ h) e f d = (
  f.0,
  Follows-append t initial (before ++ (x ∷ [])) h e f.1
      (d ∙ ap (difficulty_of t initial) (sym (append_assoc before (x ∷ []) h))),
)

-- The array that holds such a history.
abbrev pub window_of : History → Window
window_of h = replicate (missing h) none ++ map some (recent h)

pub last_stamp-append :
    (h : History) (e : DifficultyAndTimestamp) → last_stamp (h ++ (e ∷ [])) ≡ e.timestamp
last_stamp-append [] e = refl
last_stamp-append (x ∷ []) e = refl
last_stamp-append (x ∷ y ∷ h) e = last_stamp-append (y ∷ h) e

pub Rises-append :
    (h : History) (e : DifficultyAndTimestamp)
    → Rises h
    → last_stamp h ≤ e.timestamp
    → Rises (h ++ (e ∷ []))
Rises-append [] e r l = tt
Rises-append (x ∷ []) e r l = (l, tt)
Rises-append (x ∷ y ∷ h) e r l = (r.0, Rises-append (y ∷ h) e r.1 l)

Rises-tail : (x : DifficultyAndTimestamp) (h : History) → Rises (x ∷ h) → Rises h
Rises-tail x [] r = tt
Rises-tail x (y ∷ h) r = r.1

pub Rises-drop : (n : ℕ) (h : History) → Rises h → Rises (drop n h)
Rises-drop zero h r = r
Rises-drop (suc n) [] r = tt
Rises-drop (suc n) (x ∷ h) r = Rises-drop n h (Rises-tail x h r)

pub first-le-last :
    (x : DifficultyAndTimestamp) (h : History) → Rises (x ∷ h) → x.timestamp ≤ last_stamp (x ∷ h)
first-le-last x [] r = omega arith
first-le-last x (y ∷ h) r = omega (arith, r.0, first-le-last y h r.1)

-- Over a history that rises, the pairwise differences telescope: none of them is cut off at 0.
pub elapsed-some :
    (t : ℕ) (h : History) → Rises h → elapsed t (map some h) ≡ last_stamp h - first_stamp h
unfolding delta
elapsed-some t [] r = omega arith
elapsed-some t (x ∷ []) r = omega arith
elapsed-some t (x ∷ y ∷ h) r = omega (arith, r.0, first-le-last y h r.1, elapsed-some t (y ∷ h) r.1)

-- A missing entry before the first counts as one block time.
pub elapsed-missing :
    (t k : ℕ) (x : DifficultyAndTimestamp) (w : Window)
    → elapsed t (replicate k none ++ (some x ∷ w)) ≡ k * t + elapsed t (some x ∷ w)
unfolding delta
elapsed-missing t zero x w = omega arith
elapsed-missing t (suc zero) x w = omega arith
elapsed-missing t (suc (suc k)) x w = omega (arith, elapsed-missing t (suc k) x w)

pub total-some : (initial : ℕ) (h : History) → total_difficulty initial (map some h) ≡ work_in h
unfolding entry_difficulty
total-some initial [] = refl
total-some initial (x ∷ h) = omega (arith, total-some initial h)
