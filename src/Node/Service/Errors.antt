-- ===== src/Node/Service/Errors.antt =====
-- Which error ends a start of the node, `new_full` of node/src/service.rs.
use crain.Prelude.{◌≡◌, if◌then◌else◌, List, [], ◌∷◌, Option, none, some, Result, ok, err}
use Prim.Native.String.{String}
use crain.Node.Objects.{Objects}
use crain.Node.Steps.{Run}
use crain.Node.Service.{Keys, Host, ServiceError, Configuration, other, substrate, decode_author}
use crain.Node.Service.Walk.{telemetry}

-- The first error that occurs, in an order of what can go wrong.
abbrev pub first_error : {E : Type 0} → List (Option E) → Result (Unit {0}) E
first_error [] = ok tt
first_error (none ∷ later) = first_error later
first_error (some e ∷ later) = err e

abbrev pub error_of : {A E F : Type 0} → (E → F) → Result A E → Option F
error_of f (ok a) = none
error_of f (err e) = some (f e)

module _ {o : Objects} {P E : Type 0} where
  -- The run ends with the first of these errors, or without one.
  abbrev Tries : {A : Type 0} → List (Option E) → Run o P A E → Type 0
  Tries xs (es, ok a) = first_error xs ≡ ok tt
  Tries xs (es, err e) = first_error xs ≡ err e

module _ {o : Objects} (k : Keys) {E : Type 0} (h : Host o k.Public E)
    (config : Configuration) where
  -- The errors of a start, in the order in which the code can meet them.
  abbrev pub partial_errors : List (Option (ServiceError E))
  partial_errors =
      (if config.keystore_remote then some (other "Remote Keystores are not supported.") else none)
      ∷ (if telemetry k h config then error_of substrate h.telemetry_worker else none)
      ∷ error_of substrate h.full_parts
      ∷ error_of substrate h.import_queue
      ∷ []

  abbrev pub author_error : Option String → Option (ServiceError E)
  author_error author =
      if config.is_authority
      then error_of other (decode_author k author h config.keystore_path).1
      else none

  abbrev pub full_errors : Option String → List (Option (ServiceError E))
  full_errors author =
      error_of substrate h.network ∷ error_of substrate h.tasks ∷ author_error author ∷ []
