-- ===== src/Node/Command/Offline.antt =====
-- What the program adds to a subcommand of node/src/command.rs.
use crain.Prelude.{◌≡◌, ◌⊎◌, List, ◌++◌, err, All}
use Prim.Native.String.{String}
use crain.Node.Objects.{Objects}
use crain.Node.Steps.{Effect, Run}
use crain.Node.Service.{Keys, Host, Configuration, or_else}
use crain.Node.Service.Effects.{IsNoMining, IsQuiet}
use crain.Node.Command.Run.{Calls, Error, outside, Ran}

-- Effects of a node that neither mines, nor makes a key, nor joins the network.
abbrev pub IsOffline : {o : Objects} {P : Type 0} → Effect o P → Type 0
IsOffline e = IsNoMining e × IsQuiet e

module _ {o : Objects} (k : Keys) {E : Type 0} (c : Calls o k.Public E) (h : Host o k.Public E)
    (config : Configuration) where
  -- A run that fails before the subcommand's own, or ends with it.
  abbrev pub Leads : List (Effect o k.Public) → Ran k c h config → Type 0
  Leads before r =
      ((e : Error E) × (r ≡ (before, err e)))
      ⊎ (r ≡ (before ++ c.outcome.0, or_else c.outcome.1 outside))

  abbrev pub RunsOffline : Ran k c h config → Type 0
  RunsOffline r = (before : List (Effect o k.Public)) × All IsOffline before × Leads before r
