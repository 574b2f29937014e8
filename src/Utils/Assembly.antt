-- ===== src/Utils/Assembly.antt =====
-- `to_dataflow` of src/common/src/utils.rs.
use lightflus.Base.{
  true, Option, none, some, List, ◌≡◌, refl, is_some, keep-In, In, nat_ord, All, All-of-In,
}
use lightflus.Base.HashMap
use lightflus.Proto.Ids.{ResourceId}
use lightflus.Proto.Graph.{OperatorInfo, DataflowMeta}
use lightflus.Utils.{to_dataflow}

some_of : {A : Type 0} (o : Option A) → is_some o ≡ true → (a : A) × (o ≡ some a)
some_of none h = cc
some_of (some a) h = (a, refl)

-- Every node of a dataflow that is put together has its operator, and is one of the given nodes.
pub to_dataflow_lem :
    (job_id : ResourceId) (operators : List OperatorInfo) (meta : List DataflowMeta)
    → All
        (λ m.
          In m meta
          × ((info : OperatorInfo) × (HashMap.get m.center (to_dataflow job_id operators meta).nodes
                ≡ some info)))
        (to_dataflow job_id operators meta).meta
unfolding to_dataflow
to_dataflow_lem job_id operators meta =
    All-of-In _ _ λ m i. let (given, found) = keep-In _ meta m i in (given, some_of _ found)
