-- ===== src/Message.antt =====
-- message.go: a turn of a conversation, and what is read off it.
pub mod Json
use golm.Common.{ℕ, Bool, true, false, Option, none, some, List, [], ◌∷◌, ◌++◌, Bytes}
use golm.Content.{
  Role, system, user, assistant, tool, Content, text, thinking, plan, image, audio, tool_use,
  tool_result, ToolUse, ToolResult, ToolContent,
}

pub record Message : Type 0 where
  pub role : Role
  pub content : List Content

-- Go's zero value: the empty role is the empty string.
abbrev pub no_message : Message
no_message = record { role = Role.other []; content = [] }

unfoldable pub user_text : Bytes → Message
user_text s = record { role = user; content = text s ∷ [] }

unfoldable pub assistant_text : Bytes → Message
assistant_text s = record { role = assistant; content = text s ∷ [] }

texts : List Content → Bytes
texts [] = []
texts (text s ∷ cs) = s ++ texts cs
texts (_ ∷ cs) = texts cs

-- `Message.Text`.
unfoldable pub message_text : Message → Bytes
unfolding texts
message_text m = texts m.content

unfoldable pub uses : List Content → List ToolUse
uses [] = []
uses (tool_use u ∷ cs) = u ∷ uses cs
uses (_ ∷ cs) = uses cs

-- `Message.ToolUses`.
unfoldable pub tool_uses : Message → List ToolUse
unfolding uses
tool_uses m = uses m.content

-- The first block that is no text, which the error of `SystemTextOnly` names.
unfoldable pub first_non_text : List Content → Option Content
first_non_text [] = none
first_non_text (text s ∷ cs) = first_non_text cs
first_non_text (c ∷ cs) = some c

abbrev first_some {ℓ} : {A : Type ℓ} → Option A → Option A → Option A
first_some (some a) b = some a
first_some none b = b

system_block : Role → List Content → Option Content
unfolding first_non_text
system_block system cs = first_non_text cs
system_block _ cs = none

-- `SystemTextOnly`: `none` is the nil error.
unfoldable pub system_text_only : List Message → Option Content
unfolding system_block
system_text_only [] = none
system_text_only (m ∷ ms) = first_some (system_block m.role m.content) (system_text_only ms)

first_non_text_part : ToolResult → List ToolContent → Option (ToolResult × ToolContent)
first_non_text_part r [] = none
first_non_text_part r (ToolContent.text s ∷ cs) = first_non_text_part r cs
first_non_text_part r (c ∷ cs) = some (r, c)

non_text_result : List Content → Option (ToolResult × ToolContent)
unfolding first_non_text_part
non_text_result [] = none
non_text_result (tool_result r ∷ cs) =
    first_some (first_non_text_part r r.content) (non_text_result cs)
non_text_result (_ ∷ cs) = non_text_result cs

-- `ToolResultTextOnly`: the tool and the block that the error names.
unfoldable pub tool_result_text_only : List Message → Option (ToolResult × ToolContent)
unfolding non_text_result
tool_result_text_only [] = none
tool_result_text_only (m ∷ ms) = first_some (non_text_result m.content) (tool_result_text_only ms)
