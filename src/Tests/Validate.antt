-- ===== src/Tests/Validate.antt =====
-- Dataflow::validate on concrete dataflows.
use lightflus.Base.{ℕ, [], ◌∷◌, ◌≡◌, ◌↔◌, refl, inl, inr, ok, err, some, nat_ord}
use lightflus.Base.HashMap
use lightflus.Proto.Graph.{OperatorInfo, kafka_data_type}
use lightflus.Proto.Validate.{
  validate, check_metas, check_neighbors, check_operator, found_check, details_check, source_check,
  sink_check, kafka_check, redis_check, sort_by_center, cyclic_dataflow,
}
use lightflus.Proto.Validate.Soundness.{IsDeployable, validate_iff, OperatorReady}
use lightflus.Proto.Validate.Cycles.{
  Reaches, edge, one, more, validate-cycles, validate-Reaches, validate-self_loop,
}
use lightflus.Tests.Fixtures.{words, loop, looping}

pub words_valid : validate words ≡ ok tt
unfolding validate check_metas check_neighbors check_operator found_check details_check source_check
    sink_check kafka_check redis_check sort_by_center kafka_data_type HashMap.get
words_valid = refl

pub words-IsDeployable : IsDeployable words
words-IsDeployable = (validate_iff words).0 words_valid

validate_iff_example : (validate words ≡ ok tt) ↔ IsDeployable words
validate_iff_example = validate_iff words

words_backwards :
    validate (record words { meta = record { center = 3; neighbors = 2 ∷ [] } ∷ [] })
    ≡ err cyclic_dataflow
unfolding validate check_metas check_neighbors check_operator found_check details_check source_check
    sink_check kafka_check redis_check sort_by_center kafka_data_type HashMap.get
words_backwards = refl

loop_valid : validate loop ≡ ok tt
unfolding validate check_metas check_neighbors check_operator found_check details_check
    sort_by_center HashMap.get
loop_valid = refl

loop_path : Reaches loop 2 2
loop_path = one (edge looping (inl refl) refl (inl refl))

validate-cycles_example : ◌≡◌ {A = ℕ} 2 2
validate-cycles_example = validate-cycles loop 2 2 loop_valid loop_path loop_path

words_path : Reaches words 1 3
words_path =
    more (edge (record { center = 1; neighbors = 2 ∷ [] }) (inr (inl refl)) refl (inl refl))
      (one (edge (record { center = 2; neighbors = 3 ∷ [] }) (inl refl) refl (inl refl)))

all_reached :
    (info : OperatorInfo) × (HashMap.get 3 words.nodes ≡ some info)
    × (check_operator words 3 ≡ ok tt)
all_reached = validate-Reaches words 1 3 words_valid words_path

mapper_ready : OperatorReady loop 2
mapper_ready = ((validate_iff loop).0 loop_valid).1.0.0

self_loop_accepted : (validate loop ≡ ok tt) × Reaches loop 2 2
self_loop_accepted = validate-self_loop loop looping refl refl refl mapper_ready
