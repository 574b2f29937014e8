-- ===== src/Utils.antt =====
-- Helpers of src/common/src/utils.rs: the command line and the making of a dataflow. A panic is
-- `none`.
use lightflus.Base.{
  ℕ, Bool, true, false, ◌&&◌, not, Option, none, some, List, [], ◌∷◌, Str, if◌then◌else◌, ◌==◌,
  is_empty, is_some, keep, and_then, nat_ord, list_ord,
}
use lightflus.Base.HashMap
use lightflus.Base.HashMap.{HashMap}
use lightflus.Proto.Ids.{ResourceId}
use lightflus.Proto.Graph.{OperatorInfo, DataflowMeta, Dataflow, default_dataflow}
pub mod Arguments
pub mod Assembly

pub record Arg : Type 0 where
  pub key : Str
  pub value : Str

-- `arg.starts_with("-")`
abbrev pub starts_with_dash : Str → Bool
starts_with_dash [] = false
starts_with_dash (b ∷ bs) = b == 45

-- `arg[1..arg.len()]`
abbrev pub without_dash : Str → Str
without_dash [] = []
without_dash (b ∷ bs) = bs

-- Arg::is_empty
unfoldable pub arg_is_empty : Arg → Bool
arg_is_empty a = is_empty a.key && is_empty a.value

-- Arg::clear
unfoldable pub clear : Arg → Arg
clear a = record { key = []; value = [] }

abbrev cleared : Arg → Arg
cleared a = if not (arg_is_empty a) then clear a else a

-- Args::process_arg
unfoldable pub process_arg : Str → Arg → HashMap Str Arg → Option (Arg × HashMap Str Arg)
process_arg arg current args =
    if starts_with_dash arg
    then (if not (is_empty current.key)
        then none
        else some (record (cleared current) { key = without_dash arg }, args))
    else (let current' = record current { value = arg } in
        some (current', HashMap.insert current.key current' args))

-- the loop of Args::default over the arguments
unfoldable pub process_args : List Str → Arg → HashMap Str Arg → Option (HashMap Str Arg)
process_args [] current args = some args
process_args (a ∷ more) current args =
    and_then (process_arg a current args) (λ done. process_args more done.0 done.1)

abbrev pub no_arg : Arg
no_arg = record { key = []; value = [] }

-- Args::default, from the arguments of the process
unfoldable pub parse_args : List Str → Option (HashMap Str Arg)
parse_args given = process_args given no_arg []

-- Args::arg
unfoldable pub arg : Str → HashMap Str Arg → Option Arg
arg flag args = HashMap.get flag args

-- `operators.iter().map(|entry| (entry.operator_id, entry.clone())).collect()`
unfoldable pub collect_nodes : List OperatorInfo → HashMap ℕ OperatorInfo → HashMap ℕ OperatorInfo
collect_nodes [] nodes = nodes
collect_nodes (o ∷ os) nodes = collect_nodes os (HashMap.insert o.operator_id o nodes)

-- to_dataflow
unfoldable pub to_dataflow : ResourceId → List OperatorInfo → List DataflowMeta → Dataflow
to_dataflow job_id operators meta =
    let nodes = collect_nodes operators [] in
    record default_dataflow {
      job_id = some job_id;
      nodes = nodes;
      meta = keep (λ (m : DataflowMeta). is_some (HashMap.get m.center nodes)) meta;
    }
