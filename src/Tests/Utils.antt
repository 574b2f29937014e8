-- ===== src/Tests/Utils.antt =====
-- Command lines, and the dataflow of the job of three operators put together.
use lightflus.Base.{none, some, List, [], ◌∷◌, ◌≡◌, refl, Str, All, In, map, nat_ord}
use lightflus.Base.HashMap
use lightflus.Base.HashMap.{HashMap}
use lightflus.Proto.Graph.{OperatorInfo}
use lightflus.Utils.{Arg, parse_args, arg, to_dataflow}
use lightflus.Utils.Arguments.{parse_args-two_flags, arg-parse_args}
use lightflus.Utils.Assembly.{to_dataflow_lem}
use lightflus.Tests.Fixtures.{bytes, job, nodes, metas}

second_flag_lost :
    parse_args
      (bytes "coordinator" ∷ (45 ∷ bytes "c") ∷ (bytes "coord.json" ∷ bytes "-p" ∷ bytes "80" ∷ []))
    ≡ none
second_flag_lost =
    parse_args-two_flags (bytes "coordinator" ∷ []) (bytes "c") (bytes "coord.json" ∷ [])
      (bytes "-p") (bytes "80" ∷ []) refl refl

flag_found :
    (args : HashMap Str Arg) × (parse_args
        (bytes "coordinator" ∷ (45 ∷ bytes "c") ∷ bytes "coord.json" ∷ [])
      ≡ some args)
    × (arg (bytes "c") args ≡ some (record { key = bytes "c"; value = bytes "coord.json" }))
flag_found = arg-parse_args (bytes "coordinator") (bytes "c") (bytes "coord.json") refl refl

abbrev operators : List OperatorInfo
operators = map (λ e. e.1) nodes

assembled :
    All
      (λ m.
        In m metas
        × ((info : OperatorInfo) × (HashMap.get m.center (to_dataflow job operators metas).nodes
              ≡ some info)))
      (to_dataflow job operators metas).meta
assembled = to_dataflow_lem job operators metas
