-- ===== src/Node/Command/Specs.antt =====
-- The chains that `load_spec` of node/src/command.rs knows by name.
use Prim.Native.String.{String}
