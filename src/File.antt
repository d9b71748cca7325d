-- ===== src/File.antt =====
-- internal/domain/file: node types, ownership records, write-ahead intents, and the store
-- interfaces, whose operations take the state W that they act on.
pub mod NodeType
use workspace_service.Base.{ℕ, Bool, Option, List, Text, Map}
use workspace_service.Errors.{Error, Result}

pub record NodeActor : Type 0 where
  pub owner_uin : Text
  pub uin : Text
  pub app_id : Text
  pub workspace_id : Text

pub record NodeMutation : Type 0 where
  pub inode_id : ℕ
  pub actor : NodeActor
  pub node_type : Text

pub record NodeRecord : Type 0 where
  pub inode_id : ℕ
  pub owner_uin : Text
  pub uin : Text
  pub app_id : Text
  pub workspace_id : Text
  pub node_type : Text

pub data IntentStatus : Type 0 where
  pending : IntentStatus
  done : IntentStatus
  aborted : IntentStatus

pub data IntentOp : Type 0 where
  create_folder : IntentOp
  create_file : IntentOp
  write_file : IntentOp
  create_notebook : IntentOp

-- Times are numbers of nanoseconds.
pub record Intent : Type 0 where
  pub id : Text
  pub op : IntentOp
  pub abs_path : Text
  pub actor : NodeActor
  pub node_type : Text
  pub status : IntentStatus
  pub attempts : ℕ
  pub last_error : Text
  pub created_at : ℕ
  pub updated_at : ℕ

-- A call's error, `none` for nil, and the state after it.
abbrev pub Outcome : Type 0 → Type 0
Outcome W = Option Error × W

pub record IntentStore (W : Type 0) : Type 0 where
  pub enqueue : Intent → W → Outcome W
  pub mark_done : Text → W → Outcome W
  pub mark_aborted : Text → Text → W → Outcome W
  pub increment_attempt : Text → Text → W → Outcome W
  pub list_pending : ℕ → W → Result (List Intent)

pub record NodeStore (W : Type 0) : Type 0 where
  pub upsert_created_or_updated : NodeMutation → W → Outcome W
  pub mark_deleted : NodeMutation → W → Outcome W
  pub lookup_by_inode_ids : List ℕ → W → Result (Map ℕ NodeRecord)

abbrev pub is_pending : IntentStatus → Bool
is_pending pending = Bool.true
is_pending _ = Bool.false
