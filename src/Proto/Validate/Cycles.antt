-- ===== src/Proto/Validate/Cycles.antt =====
-- What validation (src/proto/src/common_impl.rs) guarantees of the paths of a dataflow.
use lightflus.Base.{
  ℕ, ◌≤◌, true, [], ◌∷◌, ◌≡◌, ok, some, In, All-In, arith, is_some, refl, inl, nat_ord,
}
use lightflus.Base.HashMap
use lightflus.Proto.Graph.{DataflowMeta, Dataflow, OperatorInfo}
use lightflus.Proto.Validate.Checks.{validate, check_operator}
use lightflus.Proto.Validate.Soundness.{
  NodeReady, OperatorReady, IsDeployable, validate_iff, check_operator_iff,
}

-- An edge of the dataflow, from a node to one of its neighbors.
pub data Edge (d : Dataflow) (a b : ℕ) : Type 0 where
  edge : (m : DataflowMeta) → In m d.meta → m.center ≡ a → In b m.neighbors → Edge d a b

-- A path of at least one edge.
pub data Reaches (d : Dataflow) : ℕ → ℕ → Type 0 where
  one : {a b : ℕ} → Edge d a b → Reaches d a b
  more : {a b c : ℕ} → Edge d a b → Reaches d b c → Reaches d a c

-- An edge leads to a node with a larger or the same number, at which an operator is ready.
Edge-up : {d : Dataflow} {a b : ℕ} → IsDeployable d → Edge d a b → (a ≤ b) × OperatorReady d b
Edge-up {d} {a} {b} h (edge m i e j) =
    let (up, ready) = All-In _ m.neighbors b (All-In (NodeReady d) d.meta m h.1 i).1 j in
    (omega arith, ready)

Reaches-up : {d : Dataflow} {a b : ℕ} → IsDeployable d → Reaches d a b → a ≤ b
Reaches-up h (one e) = (Edge-up h e).0
Reaches-up h (more e r) = omega (arith, Edge-up h e, Reaches-up h r)

-- In a dataflow that `validate` accepts, two nodes that reach each other are the same node: the
-- only cycles are edges from a node to itself.
pub validate-cycles :
    (d : Dataflow) (a b : ℕ) → validate d ≡ ok tt → Reaches d a b → Reaches d b a → a ≡ b
validate-cycles d a b h there back =
    let deployable = (validate_iff d).0 h in
    omega (arith, Reaches-up deployable there, Reaches-up deployable back)

Reaches-ready : {d : Dataflow} {a b : ℕ} → IsDeployable d → Reaches d a b → OperatorReady d b
Reaches-ready h (one e) = (Edge-up h e).1
Reaches-ready h (more e r) = Reaches-ready h r

-- In a dataflow that `validate` accepts, every node that an edge or a path leads to has an
-- operator, and the operator's check passes.
pub validate-Reaches :
    (d : Dataflow) (a b : ℕ)
    → validate d ≡ ok tt
    → Reaches d a b
    → (info : OperatorInfo) × (HashMap.get b d.nodes ≡ some info) × (check_operator d b ≡ ok tt)
validate-Reaches d a b h r =
    let ready = Reaches-ready ((validate_iff d).0 h) r in
    (ready.0, ready.1, (check_operator_iff d b).1 ready)

-- An edge from a node to itself passes: a dataflow with a job id whose one node has a ready
-- operator and is its own neighbor is accepted, and the node reaches itself.
pub validate-self_loop :
    (d : Dataflow) (m : DataflowMeta)
    → is_some d.job_id ≡ true
    → d.meta ≡ m ∷ []
    → m.neighbors ≡ m.center ∷ []
    → OperatorReady d m.center
    → (validate d ≡ ok tt) × Reaches d m.center m.center
validate-self_loop d m job nodes self ready = (
  (validate_iff d).1 (job, rw nodes ((ready, rw self ((omega arith, ready), tt)), tt)),
  one (edge m (rw nodes (inl refl)) refl (rw self (inl refl))),
)
