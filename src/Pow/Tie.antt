-- ===== src/Pow/Tie.antt =====
-- `break_tie` of pow/src/lib.rs, and the choice between seals that it makes.
use crain.Prelude.{
  ℕ, ◌≡◌, refl, ◌∙◌, ◌⊎◌, inl, inr, true, false, if◌then◌else◌, List, [], ◌∷◌, arith, Bool-cases,
}
use crain.Pow.Crypto.{Crypto}
use crain.Pow.Algorithm.{bytes_gt, break_tie}

bytes_gt_asymm : (xs ys : List ℕ) → bytes_gt xs ys ≡ true → bytes_gt ys xs ≡ false
unfolding bytes_gt
bytes_gt_asymm [] [] h = refl
bytes_gt_asymm [] (y ∷ ys) h = cc
bytes_gt_asymm (x ∷ xs) [] h = refl
bytes_gt_asymm (x ∷ xs) (y ∷ ys) h = ground (arith, bytes_gt_asymm xs ys)

-- Two texts of which neither is greater are equal.
bytes_gt_total : (xs ys : List ℕ) → bytes_gt xs ys ≡ false → bytes_gt ys xs ≡ false → xs ≡ ys
unfolding bytes_gt
bytes_gt_total [] [] h k = refl
bytes_gt_total [] (y ∷ ys) h k = cc
bytes_gt_total (x ∷ xs) [] h k = cc
bytes_gt_total (x ∷ xs) (y ∷ ys) h k = ground (arith, bytes_gt_total xs ys)

bytes_le_trans :
    (xs ys zs : List ℕ) → bytes_gt xs ys ≡ false → bytes_gt ys zs ≡ false → bytes_gt xs zs ≡ false
unfolding bytes_gt
bytes_le_trans [] ys zs h k = refl
bytes_le_trans (x ∷ xs) [] zs h k = cc
bytes_le_trans (x ∷ xs) (y ∷ ys) [] h k = cc
bytes_le_trans (x ∷ xs) (y ∷ ys) (z ∷ zs) h k = ground (arith, bytes_le_trans xs ys zs)

bytes_gt_irrefl : (xs : List ℕ) → bytes_gt xs xs ≡ false
unfolding bytes_gt
bytes_gt_irrefl [] = refl
bytes_gt_irrefl (x ∷ xs) = ground (arith, bytes_gt_irrefl xs)

-- `s` is one of the listed seals.
abbrev pub IsIn : List ℕ → List (List ℕ) → Type 0
IsIn s [] = ⊥
IsIn s (t ∷ ts) = (s ≡ t) ⊎ IsIn s ts

module _ (c : Crypto) where
  open c use {blake2_256}

  -- The import queue's use of `break_tie`: of two seals at equal total difficulty the node keeps
  -- its own, unless the tie is broken for the new one.
  abbrev pub prefer : List ℕ → List ℕ → List ℕ
  prefer own new = if break_tie c own new then new else own

  -- The seal that a node holds after the seals have come in, one by one.
  abbrev pub holds : List ℕ → List (List ℕ) → List ℕ
  holds own [] = own
  holds own (new ∷ later) = holds (prefer own new) later

  -- The hash of `s` is at most that of `t`.
  abbrev Le : List ℕ → List ℕ → Type 0
  Le s t = break_tie c s t ≡ false

  Le_trans : (s t u : List ℕ) → Le s t → Le t u → Le s u
  unfolding break_tie
  Le_trans s t u = bytes_le_trans (blake2_256 s) (blake2_256 t) (blake2_256 u)

  prefer-Le : (own new : List ℕ) → Le (prefer own new) own × Le (prefer own new) new
  unfolding break_tie
  prefer-Le own new = elim (Bool-cases (break_tie c own new)) [
    | inl e ↦
        rw e (bytes_gt_asymm (blake2_256 own) (blake2_256 new) e, bytes_gt_irrefl (blake2_256 new))
    | inr e ↦ rw e (bytes_gt_irrefl (blake2_256 own), e)
  ]

  -- No seal that came in has a smaller hash than the one that the node holds.
  holds-Le :
      (own : List ℕ) (later : List (List ℕ)) (s : List ℕ)
      → IsIn s (own ∷ later)
      → Le (holds own later) s
  unfolding break_tie
  holds-Le own [] s (inl e) = rw e (bytes_gt_irrefl (blake2_256 own))
  holds-Le own [] s (inr m) = elim m [ ]
  holds-Le own (new ∷ later) s (inl e) = rw e (
      Le_trans (holds (prefer own new) later) (prefer own new) own
        (holds-Le (prefer own new) later (prefer own new) (inl refl)) (prefer-Le own new).0)
  holds-Le own (new ∷ later) s (inr (inl e)) = rw e (
      Le_trans (holds (prefer own new) later) (prefer own new) new
        (holds-Le (prefer own new) later (prefer own new) (inl refl)) (prefer-Le own new).1)
  holds-Le own (new ∷ later) s (inr (inr m)) = holds-Le (prefer own new) later s (inr m)

  prefer-IsIn : (own new : List ℕ) → IsIn (prefer own new) (own ∷ new ∷ [])
  prefer-IsIn own new = ground arith

  holds-IsIn : (own : List ℕ) (later : List (List ℕ)) → IsIn (holds own later) (own ∷ later)
  holds-IsIn own [] = inl refl
  holds-IsIn own (new ∷ later) = elim (holds-IsIn (prefer own new) later) [
    | inl e ↦ elim (prefer-IsIn own new) [
      | inl f ↦ inl (e ∙ f)
      | inr (inl f) ↦ inr (inl (e ∙ f))
      | inr (inr f) ↦ absurd f
    ]
    | inr m ↦ inr (inr m)
  ]

  -- Two nodes that have received the same seals, in whatever orders, hold seals with the same
  -- BLAKE2 hash.
  pub break_tie_converges :
      (own own' : List ℕ) (later later' : List (List ℕ))
      → ((s : List ℕ) → IsIn s (own ∷ later) → IsIn s (own' ∷ later'))
      → ((s : List ℕ) → IsIn s (own' ∷ later') → IsIn s (own ∷ later))
      → blake2_256 (holds own later) ≡ blake2_256 (holds own' later')
  unfolding break_tie
  break_tie_converges own own' later later' there back =
      bytes_gt_total (blake2_256 (holds own later)) (blake2_256 (holds own' later'))
        (holds-Le own later (holds own' later') (back (holds own' later') (holds-IsIn own' later')))
        (holds-Le own' later' (holds own later) (there (holds own later) (holds-IsIn own later)))
