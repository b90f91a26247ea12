-- ===== src/Node/Rpc.antt =====
-- node/src/rpc.rs: the RPC handler of a full node. The handlers of Substrate's three APIs, and
-- jsonrpc_core's `IoHandler`, are parameters.
use crain.Prelude.{◌≡◌, refl, List, [], ◌∷◌, Option, none, some, if◌then◌else◌, ap}
use Prim.Native.String.{String}
use text.Mathlib.Text.{◌==◌}

-- The handler of the method of a name in a list, of which the last counts.
abbrev pub served : {H : Type 0} → List (String × H) → String → Option H
served [] name = none
served ((n, h) ∷ later) name = elim (served later name) [
  | some h' ↦ some h'
  | none ↦ if n == name then some h else none
]

abbrev pub or : {H : Type 0} → Option H → Option H → Option H
or (some h) other = some h
or none other = other

or-none : {H : Type 0} (o : Option H) → or o none ≡ o
or-none (some h) = refl
or-none none = refl

-- `IoHandler` with handlers of type `Handler`: a delegate's methods come before what was there.
pub record IoHandlers (Handler : Type 0) : Type 1 where
  pub Io : Type 0
  pub default : Io
  pub extend_with : Io → List (String × Handler) → Io
  pub method : Io → String → Option Handler
  pub method-default : (name : String) → method default name ≡ none
  pub method-extend_with :
      (io : Io) (delegate : List (String × Handler)) (name : String)
      → method (extend_with io delegate) name ≡ or (served delegate name) (method io name)

-- Full client dependencies.
pub record FullDeps (C P D : Type 0) : Type 0 where
  pub client : C
  pub pool : P
  pub deny_unsafe : D

-- `to_delegate` of the three APIs.
pub record Apis (C P D Handler : Type 0) : Type 0 where
  pub system : C → P → D → List (String × Handler)
  pub transaction_payment : C → List (String × Handler)
  pub contracts : C → List (String × Handler)

module _ {C P D Handler : Type 0} (i : IoHandlers Handler) (a : Apis C P D Handler) where
  unfoldable pub create_full : FullDeps C P D → i.Io
  create_full deps =
      let io = i.default in
      let io' = i.extend_with io (a.system deps.client deps.pool deps.deny_unsafe) in
      let io'' = i.extend_with io' (a.transaction_payment deps.client) in
      i.extend_with io'' (a.contracts deps.client)

  -- A method is served by the contracts API if it is one of its methods, else by that of
  -- transaction payments, else by that of the system, each over the given client, and the last
  -- with the given pool and policy on unsafe calls; and any other method is not served.
  pub method-create_full :
      (deps : FullDeps C P D) (name : String)
      → i.method (create_full deps) name
        ≡ or (served (a.contracts deps.client) name) (
            or
              (served (a.transaction_payment deps.client) name)
              (served (a.system deps.client deps.pool deps.deny_unsafe) name))
  unfolding create_full
  method-create_full deps name =
      rw (i.method-extend_with, i.method-extend_with, i.method-extend_with, i.method-default)
        (ap
          (λ o.
            or (served (a.contracts deps.client) name)
              (or (served (a.transaction_payment deps.client) name) o))
          (or-none (served (a.system deps.client deps.pool deps.deny_unsafe) name)))
