-- ===== src/Contracts/Flipper/Runs.antt =====
-- What a sequence of calls of contracts/flipper/src/lib.rs returns.
use crain.Prelude.{
  ℕ, ◌+◌, ◌%◌, ◌≡◌, ap, ◌∙◌, Bool, true, false, not, ◌==◌, if◌then◌else◌, List, [], ◌∷◌, arith,
}
use crain.Contracts.Flipper.{Flipper, Message, flip_it, get_it, new, flip, get, run}

-- The flips among the calls.
abbrev pub flips : List Message → ℕ
flips [] = 0
flips (flip_it ∷ later) = 1 + flips later
flips (get_it ∷ later) = flips later

-- The value after a number of flips.
abbrev pub flipped : ℕ → Bool → Bool
flipped n v = if n % 2 == 0 then v else not v

-- What the calls of `get` see: the first value, flipped as often as there were flips before.
abbrev pub seen : ℕ → List Message → Bool → List Bool
seen n [] v = []
seen n (flip_it ∷ later) v = seen (n + 1) later v
seen n (get_it ∷ later) v = flipped n v ∷ seen n later v

flipped_once : (n : ℕ) (v : Bool) → not (flipped n v) ≡ flipped (n + 1) v
flipped_once n true = ground arith
flipped_once n false = ground arith

run_from :
    (calls : List Message) (n : ℕ) (v : Bool)
    → run calls (new (flipped n v)) ≡ (seen n calls v, new (flipped (n + flips calls) v))
unfolding run new get flip
run_from [] n v = ap (λ i. ([], new (flipped i v))) (omega arith)
run_from (flip_it ∷ later) n v =
    ap (λ x. run later (new x)) (flipped_once n v)
    ∙ run_from later (n + 1) v
    ∙ ap (λ i. (seen (n + 1) later v, new (flipped i v))) (omega arith)
run_from (get_it ∷ later) n v =
    ap (λ (r : List Bool × Flipper). (flipped n v ∷ r.0, r.1)) (run_from later n v)

run-new :
    (calls : List Message) (v : Bool)
    → run calls (new v) ≡ (seen 0 calls v, new (flipped (flips calls) v))
run-new calls v = run_from calls 0 v ∙ ap (λ i. (seen 0 calls v, new (flipped i v))) (omega arith)

-- After any calls of `flip` and `get` on a new contract, each `get` has returned the initial value
-- if an even number of flips came before it and its negation if an odd one did, and so will the
-- next.
pub run_lem :
    (calls : List Message) (v : Bool)
    → let (values, s') = run calls (new v) in
      (values ≡ seen 0 calls v) × (get s' ≡ flipped (flips calls) v)
unfolding get new
run_lem calls v = (
  ap (λ (r : List Bool × Flipper). r.0) (run-new calls v),
  ap (λ (r : List Bool × Flipper). get r.1) (run-new calls v),
)
