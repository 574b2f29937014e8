-- ===== src/Worker/Builders.antt =====
-- Every node and every neighbor of a validated dataflow gets an edge builder: the loops of
-- TaskWorkerBuilder::build in src/lightflus-core/src/taskmanager/taskworker.rs.
use lightflus.Base.{
  ℕ, Bool, none, same, subst, if◌then◌else◌, ◌≤◌, ◌<◌, true, Option, some, List, [], ◌∷◌, ◌≡◌, refl,
  All, arith, is_some, nat_ord, same_refl, Option-cases, Bool-cases, inl, inr,
}
use lightflus.Base.BTreeMap
use lightflus.Base.BTreeMap.{BTreeMap}
use lightflus.Base.HashMap
use lightflus.Base.HashMap.{HashMap}
use lightflus.Base.Word.{opens_channel}
use lightflus.Proto.Ids.{HostAddr, as_uri}
use lightflus.Proto.Graph.{OperatorInfo, Dataflow}
use lightflus.Proto.Validate.Soundness.{OperatorReady}
use lightflus.Worker.Defs.{
  Host, EdgeBuilder, Channels, open_channel, local_builder, remote_builder, is_remote_operator,
  id_set, add_id,
}
use lightflus.Worker.Build.{wire_neighbor, wire_neighbors}

abbrev parses_some : Host → Option HostAddr → Bool
unfolding as_uri
parses_some host none = true
parses_some host (some addr) = host.parses (as_uri addr)

-- Is the operator a local one, or does its address parse?
unfoldable pub reachable : Host → OperatorInfo → Bool
unfolding parses_some
reachable host operator =
    if is_remote_operator host.hostname operator then parses_some host operator.host_addr else true

-- Channels can be opened and every operator can be reached.
abbrev pub Reachable : Host → Dataflow → Type 0
Reachable host d =
    (opens_channel host.channel_size ≡ true) × All (λ e. reachable host e.1 ≡ true) d.nodes

pub get-All :
    (P : OperatorInfo → Type 0) (k : ℕ) (v : OperatorInfo) (m : HashMap ℕ OperatorInfo)
    → All (λ e. P e.1) m
    → HashMap.get k m ≡ some v
    → P v
unfolding HashMap.get
get-All P k v [] h g = cc
get-All P k v ((j, w) ∷ m) h g = elim (Bool-cases (same k j)) [
  | inl e ↦ subst P (cc) h.0
  | inr e ↦ get-All P k v m h.1 (cc)
]

-- There is a builder for the number.
abbrev pub Known : BTreeMap ℕ EdgeBuilder → ℕ → Type 0
Known b n = is_some (BTreeMap.get n b) ≡ true

abbrev pub Grows : BTreeMap ℕ EdgeBuilder → BTreeMap ℕ EdgeBuilder → Type 0
Grows b b' = (n : ℕ) → Known b n → Known b' n

pub insert-Grows :
    (id : ℕ) (e : EdgeBuilder) (b : BTreeMap ℕ EdgeBuilder) → Grows b (BTreeMap.insert id e b)
insert-Grows id e b n h = ground (arith, BTreeMap.get-insert id n e b)

pub insert-Known :
    (id : ℕ) (e : EdgeBuilder) (b : BTreeMap ℕ EdgeBuilder) → Known (BTreeMap.insert id e b) id
insert-Known id e b = rw (BTreeMap.get-insert id id e b, same_refl id) refl

module _ (host : Host) where
  -- What a step that leads to `c'` has done for the number.
  abbrev Reaches : Option Channels → Channels → List ℕ → Type 0
  Reaches result c ids =
      (c' : Channels) × (result ≡ some c')
      × Grows c.builders c'.builders
      × All (Known c'.builders) ids

  remote_has_host :
      (operator : OperatorInfo)
      → is_remote_operator host.hostname operator ≡ true
      → (addr : HostAddr) × (operator.host_addr ≡ some addr)
  unfolding is_remote_operator
  remote_has_host operator h = elim (Option-cases operator.host_addr) [
    | inl e ↦ cc (rw e at h)
    | inr (addr, e) ↦ (addr, e)
  ]

  parses_at :
      (operator : OperatorInfo) (addr : HostAddr)
      → is_remote_operator host.hostname operator ≡ true
      → operator.host_addr ≡ some addr
      → reachable host operator ≡ true
      → host.parses (as_uri addr) ≡ true
  unfolding reachable
  parses_at operator addr remote found ready = rw (remote, found) at ready

  wire_neighbor_total :
      (id : ℕ) (operator : OperatorInfo) (c : Channels)
      → opens_channel host.channel_size ≡ true
      → reachable host operator ≡ true
      → Reaches (wire_neighbor host id operator c) c (id ∷ [])
  unfolding wire_neighbor remote_builder local_builder
  wire_neighbor_total id operator c opens ready =
      elim (Bool-cases (is_some (BTreeMap.get id c.builders))) [
        | inl known ↦ (c, ground arith, λ n h. h, (known, tt))
        | inr unknown ↦ elim (Bool-cases (is_remote_operator host.hostname operator)) [
          | inl remote ↦
              let (addr, found) = remote_has_host operator remote in
              (
                record c { builders = BTreeMap.insert id (EdgeBuilder.remote addr) c.builders },
                rw (unknown, remote, found, parses_at operator addr remote found ready) refl,
                insert-Grows id _ c.builders,
                (insert-Known id _ c.builders, tt),
              )
          | inr near ↦ (
            open_channel id c,
            rw (unknown, near, opens) refl,
            insert-Grows id _ c.builders,
            (insert-Known id _ c.builders, tt),
          )
        ]
      ]

pub All-Grows :
    (b b' : BTreeMap ℕ EdgeBuilder) (ids : List ℕ)
    → Grows b b'
    → All (Known b) ids
    → All (Known b') ids
All-Grows b b' [] g h = tt
All-Grows b b' (n ∷ ns) g h = (g n h.0, All-Grows b b' ns g h.1)

-- The keys of a map are in ascending order.
abbrev pub Ascending {ℓ} : {V : Type ℓ} → BTreeMap ℕ V → Type 0
Ascending [] = Unit
Ascending ((k, v) ∷ m) = All (λ e. k < e.0) m × Ascending m

module _ {ℓ κ} {V : Type ℓ} (P : ℕ × V → Type κ) where
  pub All-insert :
      (k : ℕ) (v : V) (m : BTreeMap ℕ V) → P (k, v) → All P m → All P (BTreeMap.insert k v m)
  unfolding BTreeMap.insert
  All-insert k v [] p h = (p, tt)
  All-insert k v ((j, w) ∷ m) p h = ground (arith, All-insert k v m p h.1)

All-up {ℓ} :
    {V : Type ℓ} (k j : ℕ) (m : BTreeMap ℕ V) → k < j → All (λ e. j < e.0) m → All (λ e. k < e.0) m
All-up k j [] lt h = tt
All-up k j ((i, w) ∷ m) lt h = (omega arith, All-up k j m lt h.1)

pub insert-Ascending {ℓ} :
    {V : Type ℓ} (k : ℕ) (v : V) (m : BTreeMap ℕ V)
    → Ascending m
    → Ascending (BTreeMap.insert k v m)
unfolding BTreeMap.insert
insert-Ascending k v [] h = (tt, tt)
insert-Ascending k v ((j, w) ∷ m) h =
    ground (arith, All-up k j m, All-insert (λ e. j < e.0) k v m, insert-Ascending k v m h.1)

All-add_id : (P : ℕ → Type 0) (n : ℕ) (ns : List ℕ) → P n → All P ns → All P (add_id n ns)
unfolding add_id
All-add_id P n [] p h = (p, tt)
All-add_id P n (m ∷ ns) p h = ground (arith, All-add_id P n ns p h.1)

pub All-id_set : (P : ℕ → Type 0) (ns : List ℕ) → All P ns → All P (id_set ns)
unfolding id_set
All-id_set P [] h = tt
All-id_set P (n ∷ ns) h = All-add_id P n (id_set ns) h.0 (All-id_set P ns h.1)

module _ (host : Host) where
  pub wire_neighbors_total :
      (d : Dataflow) (low : ℕ) (ids : List ℕ) (c : Channels)
      → Reachable host d
      → All (λ n. (low ≤ n) × OperatorReady d n) ids
      → Reaches host (wire_neighbors host d.nodes ids c) c ids
  unfolding wire_neighbors
  wire_neighbors_total d low [] c near h = (c, refl, λ n k. k, tt)
  wire_neighbors_total d low (id ∷ ids) c near h =
      let (operator, found, ready) = h.0.1 in
      let (c', e, grows, known) =
        wire_neighbor_total host id operator c near.0
          (get-All (λ o. reachable host o ≡ true) id operator d.nodes near.1 found) in
      let (c'', e', grows', known') = wire_neighbors_total d low ids c' near h.1 in
      (c'', rw (found, e) e', λ n k. grows' n (grows n k), (grows' id known.0, known'))
