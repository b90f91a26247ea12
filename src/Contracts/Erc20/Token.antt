-- ===== src/Contracts/Erc20/Token.antt =====
-- The token of contracts/erc20/src/lib.rs up to what can be seen of it: its mappings may hold an
-- account at 0 or not at all, and may have been filled in any order.
use mathlib.Core.Quot
use mathlib.Core.Quot.{Quot, Quot-set}
use crain.Prelude.{ℕ, ◌≡◌, refl, ap, ap₂, sym, ◌∙◌, ◌==◌, List, done, map_done, done-injective}
use crain.Prelude.Machine.{Build}
use crain.Ink.{AccountId, Mapping, pair_eq}
use crain.Contracts.Erc20.{Contract, Reply, Message, run}
use crain.Contracts.Erc20.Transfer.{IsValid}
use crain.Contracts.Erc20.Supply.{AreMessages, run_keeps}
use crain.Contracts.Erc20.Ledger.{Ledger, respond_all, view, observe}
use crain.Contracts.Erc20.Refine.{run_refines}

module _ (bm : Mapping AccountId ℕ ◌==◌) (am : Mapping (AccountId × AccountId) ℕ pair_eq) where
  abbrev pub ValidContract : Type 0
  ValidContract = (s : Contract bm am) × IsValid bm am s

  -- Two contracts that look alike.
  abbrev pub Alike : ValidContract → ValidContract → Type 0
  Alike x y = view bm am x.0 ≡ view bm am y.0

  abbrev pub Token : Type 0
  Token = Quot Alike

  unfoldable pub look : Token → Ledger
  look = Quot.lift (hlevel) (λ x. view bm am x.0) λ x y h. h

  -- Tokens are nothing but what is seen of them.
  pub look-injective : (t u : Token) → look t ≡ look u → t ≡ u
  unfolding look
  look-injective =
      Quot.ind (λ _. hlevel Quot-set) λ x. Quot.ind (λ _. hlevel Quot-set) λ y. Quot.sound

  module _ (b : Build) (calls : List (AccountId × Message)) (h : AreMessages calls) where
    -- The calls on one contract, which always return.
    abbrev run_on : ValidContract → List Reply × Token
    run_on (s, v) =
        let (replies, s', e, v', k) = run_keeps bm am b calls {s = s} v h in
        (replies, Quot.mk (s', v'))

    look-run_on :
        (x : ValidContract) → ((run_on x).0, look (run_on x).1) ≡ respond_all calls (view bm am x.0)
    unfolding look
    look-run_on x =
        done-injective (ap (map_done (observe bm am)) (run_keeps bm am b calls {s = x.0} x.1 h).2)
          (run_refines bm am b calls {s = x.0} x.1 h)

    run_on-Alike : (x y : ValidContract) → Alike x y → run_on x ≡ run_on y
    run_on-Alike x y e =
        let same : ((run_on x).0, look (run_on x).1) ≡ ((run_on y).0, look (run_on y).1) =
          look-run_on x ∙ ap (respond_all calls) e ∙ sym (look-run_on y) in
        ap₂ (λ (replies : List Reply) (t : Token). (replies, t)) (ap (λ q. q.0) same)
          (look-injective (run_on x).1 (run_on y).1 (ap (λ q. q.1) same))

    -- The same calls on all contracts that look alike.
    pub send : Token → List Reply × Token
    send = Quot.lift (hlevel Quot-set) run_on run_on-Alike

    pub look-send : (t : Token) → ((send t).0, look (send t).1) ≡ respond_all calls (look t)
    unfolding send look
    look-send = Quot.ind (λ _. hlevel) look-run_on

    -- Calls with u128 amounts act on what can be seen of a token: there is one answer for all valid
    -- contracts that look alike, and it is what the run on any of them returns, in every build, with
    -- the class of the state that it ends in; supply, balances, allowances and events are then
    -- those of the ledger.
    pub run-send :
        {s : Contract bm am} (v : IsValid bm am s)
        → (replies : List Reply) × (s' : Contract bm am) × (v' : IsValid bm am s') × (run bm am b
              calls s
            ≡ done (replies, s'))
          × (send (Quot.mk (s, v)) ≡ (replies, Quot.mk (s', v')))
          × ((replies, view bm am s') ≡ respond_all calls (look (Quot.mk (s, v))))
    unfolding send look
    run-send {s} v =
        let (replies, s', e, v', k) = run_keeps bm am b calls {s = s} v h in
        (replies, s', v', e, refl, look-send (Quot.mk (s, v)))
