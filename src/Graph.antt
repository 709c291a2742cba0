-- ===== src/Graph.antt =====
-- apps/patcher_graph.h and the ports of apps/patcher_graph.cpp: nodes, edges, which edges fit.
pub mod Ports
pub mod Build
pub mod Relax
pub mod Depth
pub mod Built
pub mod Longest
pub mod Edits
pub mod Kinds
pub mod Usable
pub mod Run
pub mod Stale
mod Tests
use unidaw.Base.{
  ℕ, Bool, true, false, ◌&&◌, ◌||◌, not, List, [], ◌∷◌, Option, none, some, ◌==◌, if◌then◌else◌,
  extract,
}
use mathlib.Core.Option
use unidaw.Abi.{
  PatcherEuclideanConfig, PatcherLfoConfig, PatcherRandomDegreeConfig, default_euclidean,
  default_lfo, default_random_degree,
}

abbrev pub patcher_max_nodes : ℕ
patcher_max_nodes = 1024

pub data PatcherNodeType : Type 0 where
  rust_kernel euclidean passthrough audio_passthrough lfo random_degree event_out : PatcherNodeType

pub data PatcherPortKind : Type 0 where
  event audio control : PatcherPortKind

pub data PatcherPortDirection : Type 0 where
  input output : PatcherPortDirection

pub data PatcherControlRate : Type 0 where
  block sample : PatcherControlRate

abbrev pub event_input_port : ℕ
event_input_port = 0

abbrev pub event_output_port : ℕ
event_output_port = 1

abbrev pub control_input_port : ℕ
control_input_port = 2

abbrev pub control_output_port : ℕ
control_output_port = 3

abbrev pub audio_input_port : ℕ
audio_input_port = 4

abbrev pub audio_output_port : ℕ
audio_output_port = 5

pub record PatcherPortRef : Type 0 where
  pub node_id : ℕ
  pub port_id : ℕ

pub record PatcherEdge : Type 0 where
  pub src : PatcherPortRef
  pub dst : PatcherPortRef
  pub kind : PatcherPortKind

pub record PatcherNode : Type 0 where
  pub id : ℕ
  pub type : PatcherNodeType
  pub depth : ℕ
  pub has_euclidean_config : Bool
  pub euclidean_config : PatcherEuclideanConfig
  pub has_lfo_config : Bool
  pub lfo_config : PatcherLfoConfig
  pub has_random_degree_config : Bool
  pub random_degree_config : PatcherRandomDegreeConfig

-- `PatcherNode node;` with its id and type set.
abbrev pub new_node : ℕ → PatcherNodeType → PatcherNode
new_node id type = record {
  id = id;
  type = type;
  depth = 0;
  has_euclidean_config = false;
  euclidean_config = default_euclidean;
  has_lfo_config = false;
  lfo_config = default_lfo;
  has_random_degree_config = false;
  random_degree_config = default_random_degree;
}

pub record PatcherGraph : Type 0 where
  pub nodes : List PatcherNode
  pub edges : List PatcherEdge
  pub topo_order : List ℕ
  pub depths : List ℕ
  pub resolved_inputs : List (List ℕ)
  pub id_to_index : List ℕ
  pub max_depth : ℕ

pub record PatcherPortDesc : Type 0 where
  pub id : ℕ
  pub kind : PatcherPortKind
  pub direction : PatcherPortDirection
  pub control_rate : PatcherControlRate
  pub channel_count : ℕ

abbrev pub same_kind : PatcherPortKind → PatcherPortKind → Bool
same_kind PatcherPortKind.event PatcherPortKind.event = true
same_kind PatcherPortKind.audio PatcherPortKind.audio = true
same_kind PatcherPortKind.control PatcherPortKind.control = true
same_kind _ _ = false

abbrev pub same_direction : PatcherPortDirection → PatcherPortDirection → Bool
same_direction PatcherPortDirection.input PatcherPortDirection.input = true
same_direction PatcherPortDirection.output PatcherPortDirection.output = true
same_direction _ _ = false

abbrev pub same_rate : PatcherControlRate → PatcherControlRate → Bool
same_rate PatcherControlRate.block PatcherControlRate.block = true
same_rate PatcherControlRate.sample PatcherControlRate.sample = true
same_rate _ _ = false

abbrev pub node_accepts_event_input : PatcherNodeType → Bool
node_accepts_event_input PatcherNodeType.rust_kernel = true
node_accepts_event_input PatcherNodeType.passthrough = true
node_accepts_event_input PatcherNodeType.random_degree = true
node_accepts_event_input PatcherNodeType.event_out = true
node_accepts_event_input _ = false

abbrev pub node_provides_event_output : PatcherNodeType → Bool
node_provides_event_output PatcherNodeType.rust_kernel = true
node_provides_event_output PatcherNodeType.euclidean = true
node_provides_event_output PatcherNodeType.passthrough = true
node_provides_event_output PatcherNodeType.random_degree = true
node_provides_event_output _ = false

abbrev port : ℕ → PatcherPortKind → PatcherPortDirection → PatcherControlRate → ℕ → PatcherPortDesc
port id kind direction rate channels = record {
  id = id;
  kind = kind;
  direction = direction;
  control_rate = rate;
  channel_count = channels;
}

abbrev event_in : PatcherPortDesc
event_in =
    port event_input_port PatcherPortKind.event PatcherPortDirection.input PatcherControlRate.block
      0

abbrev event_from : PatcherPortDesc
event_from =
    port event_output_port PatcherPortKind.event PatcherPortDirection.output
      PatcherControlRate.block 0

pub ports_for_node : PatcherNodeType → List PatcherPortDesc
ports_for_node PatcherNodeType.rust_kernel =
    event_in
    ∷ event_from
    ∷ port control_input_port PatcherPortKind.control PatcherPortDirection.input
        PatcherControlRate.block 0
    ∷ port control_output_port PatcherPortKind.control PatcherPortDirection.output
        PatcherControlRate.block 0
    ∷ []
ports_for_node PatcherNodeType.euclidean = event_from ∷ []
ports_for_node PatcherNodeType.passthrough = event_in ∷ event_from ∷ []
ports_for_node PatcherNodeType.audio_passthrough =
    port audio_input_port PatcherPortKind.audio PatcherPortDirection.input PatcherControlRate.block
      2
    ∷ port audio_output_port PatcherPortKind.audio PatcherPortDirection.output
        PatcherControlRate.block 2
    ∷ []
ports_for_node PatcherNodeType.lfo =
    port control_output_port PatcherPortKind.control PatcherPortDirection.output
      PatcherControlRate.sample 0
    ∷ []
ports_for_node PatcherNodeType.random_degree = event_in ∷ event_from ∷ []
ports_for_node PatcherNodeType.event_out = event_in ∷ []

pub find_port_in : ℕ → PatcherPortDirection → List PatcherPortDesc → Option PatcherPortDesc
find_port_in id direction [] = none
find_port_in id direction (p ∷ ps) =
    if p.id == id && same_direction p.direction direction
    then some p
    else find_port_in id direction ps

unfoldable pub find_port : PatcherNodeType → ℕ → PatcherPortDirection → Option PatcherPortDesc
unfolding ports_for_node find_port_in
find_port type id direction = find_port_in id direction (ports_for_node type)

-- The tests of `isValidEdge` once both ports are found, in its order.
abbrev ports_fit :
    PatcherNodeType → PatcherNodeType → PatcherPortKind → PatcherPortDesc → PatcherPortDesc → Bool
ports_fit src dst kind s d =
    if not (same_kind s.kind d.kind)
    then false
    else if not (same_kind s.kind kind)
    then false
    else if same_kind kind PatcherPortKind.control && not (same_rate s.control_rate d.control_rate)
    then false
    else if same_kind kind PatcherPortKind.audio && (s.channel_count == 0 || d.channel_count == 0)
    then true
    else if same_kind kind PatcherPortKind.audio && not (s.channel_count == d.channel_count)
    then false
    else if same_kind kind PatcherPortKind.event
        && (not (node_provides_event_output src) || not (node_accepts_event_input dst))
    then false
    else true

unfoldable pub is_valid_edge : PatcherNodeType → PatcherNodeType → PatcherEdge → Bool
unfolding find_port
is_valid_edge src dst e = elim (find_port src e.src.port_id PatcherPortDirection.output) [
  | none ↦ false
  | some s ↦ elim (find_port dst e.dst.port_id PatcherPortDirection.input) [
    | none ↦ false
    | some d ↦ ports_fit src dst e.kind s d
  ]
]
