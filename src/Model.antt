-- ===== src/Model.antt =====
-- The graph types of internal/model/model.go: the fields that validation and execution read.
-- A JSON document that the source keeps unparsed (`json.RawMessage`) is its text, and `nil` is
-- `none`.
use brockleyai.Prelude.{Str, ℤ, Bool, true, Option, none, some, List}

pub record Port : Type 0 where
  pub name : Str
  pub schema : Str
  pub required : Option Bool
  pub default_value : Option Str

pub record StateBinding : Type 0 where
  pub state_field : Str
  pub port : Str

pub record Node : Type 0 where
  pub id : Str
  pub name : Str
  pub node_type : Str
  pub input_ports : List Port
  pub output_ports : List Port
  pub state_reads : List StateBinding
  pub state_writes : List StateBinding
  pub config : Str

pub record Edge : Type 0 where
  pub id : Str
  pub source_node_id : Str
  pub source_port : Str
  pub target_node_id : Str
  pub target_port : Str
  pub back_edge : Bool
  pub condition : Str
  pub max_iterations : Option ℤ

pub record StateField : Type 0 where
  pub name : Str
  pub schema : Str
  pub reducer : Str
  pub initial : Option Str

pub record GraphState : Type 0 where
  pub fields : List StateField

pub record Graph : Type 0 where
  pub id : Str
  pub name : Str
  pub nodes : List Node
  pub edges : List Edge
  pub state : Option GraphState

-- A port is required unless it says otherwise.
unfoldable pub is_required : Port → Bool
is_required p = elim p.required [ some required ↦ required | none ↦ true ]
