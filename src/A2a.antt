-- ===== src/A2a.antt =====
-- a2a/protocol.go: the data of the A2A protocol. A task's id, "task-%d", is the number it is made
-- of, and so is the id of its artifact; raw JSON is bytes.
pub mod Store
pub mod Stream
pub mod Client
pub mod Wire
pub mod Server
use golm.Common.{ℕ, Bool, true, false, Option, none, some, List, [], ◌∷◌, ◌++◌, Bytes}

-- Any string may stand in a `TaskState`; eight are named.
pub data TaskState : Type 0 where
  submitted working input_required auth_required completed failed canceled rejected : TaskState
  other : Bytes → TaskState

unfoldable pub is_terminal : TaskState → Bool
is_terminal completed = true
is_terminal failed = true
is_terminal canceled = true
is_terminal rejected = true
is_terminal _ = false

pub record FilePart : Type 0 where
  pub name : Bytes
  pub mime_type : Bytes
  pub uri : Bytes
  pub content : Bytes

pub record Part : Type 0 where
  pub text : Bytes
  pub file : Option FilePart
  pub json : Bytes

unfoldable pub text_part : Bytes → Part
text_part s = record { text = s; file = none; json = [] }

pub record Message : Type 0 where
  pub role : Bytes
  pub parts : List Part
  pub message_id : Bytes
  pub task_id : Bytes
  pub context_id : Bytes
  pub kind : Bytes

unfoldable pub texts_of : List Part → Bytes
texts_of [] = []
texts_of (p ∷ ps) = p.text ++ texts_of ps

-- `Message.Text`.
unfoldable pub text_of : Message → Bytes
unfolding texts_of
text_of m = texts_of m.parts

pub record TaskStatus : Type 0 where
  pub state : TaskState
  pub message : Option Message
  pub timestamp : Bytes

pub record Artifact : Type 0 where
  pub artifact_id : ℕ
  pub parts : List Part

pub record Task : Type 0 where
  pub id : ℕ
  pub context_id : Bytes
  pub status : TaskStatus
  pub artifacts : List Artifact
  pub history : List Message
  pub kind : Bytes
