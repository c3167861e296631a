-- ===== src/Content.antt =====
-- content.go: the parts of a message. Strings and raw JSON are bytes; a nil slice is the empty one.
use golm.Common.{Bool, List, [], ◌∷◌, ◌++◌, Bytes}

-- Any string may stand in a `Role`; four are named.
pub data Role : Type 0 where
  system user assistant tool : Role
  other : Bytes → Role

pub record Image : Type 0 where
  pub media_type : Bytes
  pub content : Bytes
  pub url : Bytes

pub record Audio : Type 0 where
  pub media_type : Bytes
  pub content : Bytes

pub record ToolUse : Type 0 where
  pub id : Bytes
  pub name : Bytes
  pub input : Bytes
  pub signature : Bytes

-- The subset of contents that a tool result may carry.
pub data ToolContent : Type 0 where
  text : Bytes → ToolContent
  image : Image → ToolContent
  audio : Audio → ToolContent

pub record ToolResult : Type 0 where
  pub tool_use_id : Bytes
  pub name : Bytes
  pub content : List ToolContent
  pub is_error : Bool

pub data Content : Type 0 where
  text : Bytes → Content
  thinking : Bytes → Bytes → Content
  plan : List Bytes → Content
  image : Image → Content
  audio : Audio → Content
  tool_use : ToolUse → Content
  tool_result : ToolResult → Content
  -- A type of another package that implements the interface, by its kind.
  foreign : Bytes → Content

-- `ToolText`: the one block that a tool which returns a string produces.
unfoldable pub tool_text : Bytes → List ToolContent
tool_text s = ToolContent.text s ∷ []

-- `ToolResult.Text`.
unfoldable pub result_text : List ToolContent → Bytes
result_text [] = []
result_text (ToolContent.text s ∷ cs) = s ++ result_text cs
result_text (ToolContent.image i ∷ cs) = result_text cs
result_text (ToolContent.audio a ∷ cs) = result_text cs
