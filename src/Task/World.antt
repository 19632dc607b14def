-- ===== src/Task/World.antt =====
-- The database and the outbound calls that the task services share: the tables of the schema
-- canvas, the ledger, and the requests sent to the vendor and to the object store, newest last.
use xg_canvas.Prelude.{ℕ, String, Option, List, ◌++◌, nat_eq, Uuid, Timestamp, Json}
use xg_canvas.RequestLog.{Ledger}
use xg_canvas.Task.Row.{Table}

-- A value of a node's `data` object that the task services write, or any other.
pub data NodeValue : Type 0 where
  text : String → NodeValue
  reference : Uuid → NodeValue
  other_value : Json → NodeValue

abbrev pub NodeData : Type 0
NodeData = List (String × NodeValue)

pub record CanvasNode : Type 0 where
  pub id : Uuid
  pub canvas_id : Uuid
  pub data_ : NodeData

pub record Canvas : Type 0 where
  pub id : Uuid
  pub project_id : Uuid
  pub version : ℕ
  pub last_modified_by : Option Uuid
  pub updated_at : Timestamp

pub record Project : Type 0 where
  pub id : Uuid
  pub workspace_id : Uuid

pub record Asset : Type 0 where
  pub id : Uuid
  pub type : String
  pub scope : String
  pub visibility : String
  pub workspace_id : Uuid
  pub project_id : Option Uuid
  pub owner_id : Uuid
  pub task_id : Uuid
  pub storage_key : String
  pub role : Option String

-- What leaves the process.
pub data Outbound : Type 0 where
  cancel_vendor : Uuid → String → Outbound  -- the task and its external id
  invoke_vendor : Uuid → Uuid → Outbound  -- the task and the logical request
  delete_object : String → Outbound  -- a storage key

pub record World : Type 0 where
  pub tasks : Table
  pub nodes : List CanvasNode
  pub canvases : List Canvas
  pub projects : List Project
  pub assets : List Asset
  pub logs : Ledger
  pub sent : List Outbound

-- What a database transaction returns; an exception inside it rolls every write back.
pub data Outcome {ℓ} (A : Type ℓ) : Type ℓ where
  returned : World → A → Outcome A
  thrown : String → Outcome A

abbrev pub send : List Outbound → World → World
send calls w = record w { sent = w.sent ++ calls }
