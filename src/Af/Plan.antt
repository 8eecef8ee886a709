-- ===== src/Af/Plan.antt =====
-- The parts of `AFRuntimePlan` (TokenSim/af/runtime/plan.py, records.py) that residence reads, and the KV bytes
-- of a rank: `rank_layer_kv_bytes` and `rank_kv_bytes` of TokenSim/af/runtime/admission.py, with
-- `stage_layer_range` of TokenSim/config/cache_config.py.
use token_sim.Prelude.{
  ℕ, zero, suc, ◌+◌, ◌*◌, ◌/◌, ◌%◌, min, ◌≡◌, ◌↔◌, Bool, true, false, not, ◌&&◌, ◌||◌, Option, none,
  some, List, [], ◌∷◌, String, Eq, ◌==◌, if◌then◌else◌, nat_eq, string_eq, length, get_elem?, take,
  ltb, leb, arith,
}
use token_sim.Prelude.Dict.{Dict, get, put}
use token_sim.Errors.{Outcome, ok, raise, and_then, configuration_error, key_error, index_error}

abbrev pub RankKey : Type 0
RankKey = String × ℕ

pub rank_key_eqb_iff :
    (x y : RankKey) → ((string_eq.eqb x.0 y.0 && nat_eq.eqb x.1 y.1) ≡ true) ↔ (x ≡ y)
rank_key_eqb_iff (a, m) (b, n) = ground (arith, string_eq.eqb_iff a b, nat_eq.eqb_iff m n)

instance abbrev pub rank_key_eq : Eq RankKey
rank_key_eq = record {
  eqb = λ x y. string_eq.eqb x.0 y.0 && nat_eq.eqb x.1 y.1;
  eqb_iff = rank_key_eqb_iff;
}

-- `layer_partitions` holds the bytes per token of each layer.
pub record KvPartition : Type 0 where
  pub bytes_per_token : ℕ
  pub bytes_per_block : ℕ
  pub layer_partitions : List (ℕ × ℕ)

pub record Binding : Type 0 where
  pub domain : String
  pub instance_name : String
  pub domain_rank : ℕ
  pub tp_rank : ℕ
  pub pp_rank : ℕ
  pub ep_rank : ℕ
  pub physical_identity : String
  pub kv_partition : Option KvPartition

pub record Domain : Type 0 where
  pub name : String
  pub pipeline_parallel_size : ℕ
  pub pipeline_layer_counts : Option (List ℕ)

pub record Replica : Type 0 where
  pub domain : String
  pub instance_name : String
  pub local_gpu_blocks : List (RankKey × ℕ)

pub record PhysicalState : Type 0 where
  pub physical_identity : String
  pub capacity_bytes : ℕ
  pub model_bytes : ℕ
  pub protocol_buffers : List (String × ℕ)

-- `layers` holds the attention window of each layer, 0 for none.
pub record RuntimePlan : Type 0 where
  pub total_layers : ℕ
  pub domains : List Domain
  pub rank_bindings : List Binding
  pub replicas : List Replica
  pub physical_states : List PhysicalState
  pub layers : List ℕ

abbrev sum : List ℕ → ℕ
sum [] = 0
sum (x ∷ xs) = x + sum xs

-- range(start, start + count)
abbrev range : ℕ → ℕ → List ℕ
range start zero = []
range start (suc count) = start ∷ range (start + 1) count

abbrev pub protocol_buffer_bytes : PhysicalState → ℕ
protocol_buffer_bytes st = total_of st.protocol_buffers
  where
    total_of : List (String × ℕ) → ℕ
    total_of [] = 0
    total_of ((n, size) ∷ rest) = size + total_of rest

-- `any(count < 1 for count in layer_counts)`
abbrev any_empty : List ℕ → Bool
any_empty [] = false
any_empty (n ∷ ns) = ltb n 1 || any_empty ns

abbrev stage_layer_count : ℕ → ℕ → ℕ → ℕ
stage_layer_count total_layers pp_size pp_rank =
    total_layers / pp_size + (if ltb pp_rank (total_layers % pp_size) then 1 else 0)

abbrev counted_layers : List ℕ → ℕ → ℕ → ℕ → Outcome (List ℕ)
counted_layers counts total_layers pp_size pp_rank =
    if not (length counts == pp_size) || any_empty counts || not (sum counts == total_layers)
    then raise configuration_error
    else elim (get_elem? counts pp_rank) [
      | none ↦ raise index_error
      | some n ↦ ok (range (sum (take pp_rank counts)) n)
    ]

unfoldable pub stage_layer_range : ℕ → ℕ → ℕ → Option (List ℕ) → Outcome (List ℕ)
stage_layer_range total_layers pp_size pp_rank layer_counts =
    if not (leb 1 pp_size && leb pp_size total_layers) || not (ltb pp_rank pp_size)
    then raise configuration_error
    else elim layer_counts [
      | some counts ↦ counted_layers counts total_layers pp_size pp_rank
      | none ↦
          let start = pp_rank * (total_layers / pp_size) + min pp_rank (total_layers % pp_size) in
          ok (range start (stage_layer_count total_layers pp_size pp_rank))
    ]

abbrev domain_in : List Domain → String → Outcome Domain
domain_in [] name = raise configuration_error
domain_in (d ∷ ds) name = if d.name == name then ok d else domain_in ds name

abbrev pub rank_key : Binding → RankKey
rank_key b = (b.domain, b.domain_rank)

-- `_binding_index`, from the entries before on; a later binding of a rank replaces an earlier one.
abbrev binding_index : Dict RankKey Binding → List Binding → Dict RankKey Binding
binding_index before [] = before
binding_index before (b ∷ bs) = binding_index (put (rank_key b) b before) bs

abbrev pub binding : RuntimePlan → RankKey → Outcome Binding
binding p k = elim (get k (binding_index [] p.rank_bindings)) [
  | none ↦ raise configuration_error
  | some b ↦ ok b
]

-- `dict(self.layer_partitions)`
abbrev dict_of : Dict ℕ ℕ → List (ℕ × ℕ) → Dict ℕ ℕ
dict_of before [] = before
dict_of before ((k, v) ∷ rest) = dict_of (put k v before) rest

-- `for_layer(layer).bytes_per_token`, or the even share where there are no layer partitions.
abbrev layer_bytes : KvPartition → ℕ → ℕ → Outcome ℕ
layer_bytes k share layer = elim k.layer_partitions [
  | [] ↦ ok share
  | entry ∷ rest ↦ elim (get layer (dict_of [] (entry ∷ rest))) [
    | none ↦ raise key_error
    | some n ↦ ok n
  ]
]

-- `min(context, attention_window or context)`
abbrev resident_context : ℕ → ℕ → ℕ
resident_context context window = if window == 0 then context else min context window

-- The bytes of each layer of a stage, summed.
abbrev stage_bytes : RuntimePlan → KvPartition → ℕ → ℕ → List ℕ → Outcome ℕ
stage_bytes p k share context [] = ok 0
stage_bytes p k share context (layer ∷ rest) =
    let others = stage_bytes p k share context rest in
    and_then (layer_bytes k share layer) λ bytes.
      and_then
        (elim (get_elem? p.layers layer) [ none ↦ raise configuration_error | some w ↦ ok w ])
        λ window. and_then others λ n. ok (bytes * resident_context context window + n)

unfoldable pub rank_kv_bytes : RuntimePlan → Binding → ℕ → Outcome ℕ
unfolding stage_layer_range
rank_kv_bytes p b context = elim b.kv_partition [
  | none ↦ ok 0
  | some k ↦ and_then (domain_in p.domains b.domain) λ d.
      and_then
        (stage_layer_range p.total_layers d.pipeline_parallel_size b.pp_rank
          d.pipeline_layer_counts)
        λ layers. stage_bytes p k (k.bytes_per_token / length layers) context layers
]

-- `(b.pp_rank, b.ep_rank, b.tp_rank)` of one binding is at most that of the other.
abbrev before : Binding → Binding → Bool
before a b =
    ltb a.pp_rank b.pp_rank
    || a.pp_rank == b.pp_rank
      && (ltb a.ep_rank b.ep_rank || a.ep_rank == b.ep_rank && leb a.tp_rank b.tp_rank)

abbrev insert_binding : Binding → List Binding → List Binding
insert_binding b [] = b ∷ []
insert_binding b (x ∷ xs) =
    let rest = insert_binding b xs in if before b x then b ∷ x ∷ xs else x ∷ rest

-- `_instance_index.get((domain, instance), ())`
abbrev instance_bindings : String → String → List Binding → List Binding
instance_bindings domain inst [] = []
instance_bindings domain inst (b ∷ bs) =
    let rest = instance_bindings domain inst bs in
    if b.domain == domain && b.instance_name == inst then insert_binding b rest else rest

abbrev pub bindings_for_instance : RuntimePlan → String → String → Outcome (List Binding)
bindings_for_instance p domain inst = elim (instance_bindings domain inst p.rank_bindings) [
  | [] ↦ raise configuration_error
  | b ∷ bs ↦ ok (b ∷ bs)
]

abbrev replica_in : List Replica → String → String → Outcome Replica
replica_in [] domain inst = raise configuration_error
replica_in (r ∷ rs) domain inst =
    if r.domain == domain && r.instance_name == inst then ok r else replica_in rs domain inst

abbrev pub replica_for_instance : RuntimePlan → String → String → Outcome Replica
replica_for_instance p = replica_in p.replicas

-- `_physical_index`, from the entries before on.
abbrev pub physical_index :
    Dict String PhysicalState → List PhysicalState → Dict String PhysicalState
physical_index before [] = before
physical_index before (st ∷ sts) = physical_index (put st.physical_identity st before) sts

abbrev pub physical_state : RuntimePlan → String → Outcome PhysicalState
physical_state p name = elim (get name (physical_index [] p.physical_states)) [
  | none ↦ raise configuration_error
  | some st ↦ ok st
]
