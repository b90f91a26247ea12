-- ===== src/Node/Command/Samples.antt =====
-- Keys for the tests on the chains of node/src/chain_spec.rs: a key is the text that it is derived
-- from.
use crain.Prelude.{
  ◌≡◌, refl, arith, Bool, true, false, not, ◌&&◌, List, [], ◌∷◌, some, Result, err, All,
}
use Prim.Native.String.{String, ◌++◌}
use text.Mathlib.Text.{◌==◌}
use text.Mathlib.TextEquality.{eq_iff}
use text.Mathlib.TextLemmas.{append_cancel_left}
use crain.Node.ChainSpec.{Keys, Spec, endowed_seeds}
use crain.Node.ChainSpec.Launch.{Derives, IsAccountOf, AreApart}

abbrev pub texts : Keys
texts = record {
  Public = String;
  AccountId = String;
  public_from_string = λ t. some t;
  into_account = λ p. p;
}

abbrev pub no_file : String → Result (Spec String) String
no_file path = err "no such file"

pub texts-Derives : (l : List String) → All (Derives texts) l
texts-Derives [] = tt
texts-Derives (s ∷ l) = (("//" ++ s, ("//" ++ s, refl, refl)), texts-Derives l)

-- Texts that differ are keys that differ.
seeds_apart :
    (s t : String)
    → (s == t) ≡ false
    → (a : String) → IsAccountOf texts s a
    → ¬ IsAccountOf texts t a
seeds_apart s t h a (p, e, f) (q, g, i) =
    let same : s ≡ t = append_cancel_left "//" s t cc in
    absurd (ground (arith, (eq_iff s t).1 same))

fresh : String → List String → Bool
fresh s [] = true
fresh s (t ∷ l) = not (s == t) && fresh s l

distinct : List String → Bool
distinct [] = true
distinct (s ∷ l) = fresh s l && distinct l

fresh_apart :
    (s : String) (l : List String)
    → fresh s l ≡ true
    → All (λ t. (a : String) → IsAccountOf texts s a → ¬ IsAccountOf texts t a) l
unfolding fresh
fresh_apart s [] h = tt
fresh_apart s (t ∷ l) h = (seeds_apart s t (ground arith), fresh_apart s l (ground arith))

distinct-AreApart : (l : List String) → distinct l ≡ true → AreApart texts l
unfolding distinct
distinct-AreApart [] h = tt
distinct-AreApart (s ∷ l) h = (fresh_apart s l (ground arith), distinct-AreApart l (ground arith))

pub endowed_seeds-AreApart : AreApart texts (endowed_seeds texts)
unfolding distinct fresh
endowed_seeds-AreApart = distinct-AreApart (endowed_seeds texts) refl
