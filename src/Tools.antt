-- ===== src/Tools.antt =====
-- tool.go and agent.go: the set of tools, and one tool call (`execTool`, `boundToolResult`).
pub mod Bounds
pub mod Registering
use mathlib.Core.Option
use golm.Common.{
  ℕ, zero, suc, ◌+◌, ◌-◌, ◌≡◌, Bool, true, false, Option, none, some, List, [], ◌∷◌, ◌++◌, map,
  Bytes, codes, bytes_eq, ℤ, pos, negsuc, ltb, leb, if◌then◌else◌, length, get_elem?, take, ◌||◌,
  ◌&&◌,
}
use golm.Content.{Image, Audio, ToolUse, ToolResult, ToolContent, text, image, audio, tool_text}

-- What the package prints with `fmt`: a quoted string and a decimal number.
pub record Printer : Type 0 where
  pub quote : Bytes → Bytes
  pub decimal : ℕ → Bytes

-- A tool of the host program. What it does when it runs is the environment's answer.
pub record Tool : Type 0 where
  pub name : Bytes
  pub description : Bytes
  pub schema : Bytes

pub record ToolDef : Type 0 where
  pub name : Bytes
  pub description : Bytes
  pub schema : Bytes

-- `Registry.tools`, in no particular order.
abbrev pub Registry : Type 0
Registry = List Tool

unfoldable pub register : Tool → Registry → Registry
register t [] = t ∷ []
register t (x ∷ xs) = if bytes_eq x.name t.name then t ∷ xs else x ∷ register t xs

-- `Register`: later tools replace earlier ones of the same name.
unfoldable pub register_all : List Tool → Registry → Registry
register_all [] r = r
register_all (t ∷ ts) r = register_all ts (register t r)

unfoldable pub get : Registry → Bytes → Option Tool
get [] name = none
get (x ∷ xs) name = if bytes_eq x.name name then some x else get xs name

-- `Defs`, over the sorted list of `List`.
unfoldable pub defs : List Tool → List ToolDef
defs ts = map (λ t. record { name = t.name; description = t.description; schema = t.schema }) ts

-- `utf8.RuneStart`: no continuation byte of UTF-8.
unfoldable pub rune_start : ℕ → Bool
rune_start b = ltb b 128 || leb 192 b

-- The loop of `truncRunes`; its index stays below the length.
unfoldable pub rune_cut : Bytes → ℕ → ℕ
rune_cut s zero = 0
rune_cut s (suc n) = elim (get_elem? s (suc n)) [
  | none ↦ 0
  | some b ↦ if rune_start b then suc n else rune_cut s n
]

unfoldable pub trunc_runes : Bytes → ℕ → Bytes
trunc_runes s n = if leb (length s) n then s else take (rune_cut s n) s

unfoldable pub media_bytes : ToolContent → ℕ
media_bytes (image i) = length i.content + length i.url
media_bytes (audio a) = length a.content
media_bytes (text s) = 0

-- The ellipsis, in UTF-8.
abbrev ellipsis : Bytes
ellipsis = 226 ∷ 128 ∷ 166 ∷ []

media_kind : ToolContent → Bytes
media_kind (image i) = codes "image"
media_kind (audio a) = codes "audio"
media_kind (text s) = codes "text"

-- How the tool's own code ended; a failure and a panic by their texts.
pub data Execution : Type 0 where
  gives : List ToolContent → Execution
  fails : Bytes → Execution
  panics : Bytes → Execution

module _ (p : Printer) where
  unfoldable pub truncated_note : ℕ → Bytes
  truncated_note omitted =
      10 ∷ (ellipsis ++ (codes " (truncated, " ++ (p.decimal omitted ++ codes " bytes omitted)")))

  unfoldable pub omitted_note : ToolContent → Bytes
  unfolding media_kind media_bytes
  omitted_note c =
      ellipsis
      ++ (codes " ("
          ++ (media_kind c
              ++ (codes " omitted, "
                  ++ (p.decimal (media_bytes c) ++ codes " bytes over the result cap)"))))

  -- One round of the loop of `boundToolResult`: what is kept, and the room that is left.
  unfoldable pub bound_one : ToolContent → ℕ → ToolContent × ℕ
  unfolding trunc_runes rune_cut truncated_note omitted_note
  bound_one (text s) left =
      if leb (length s) left
      then (text s, left - length s)
      else (let kept = trunc_runes s left in
          (text (kept ++ truncated_note (length s - length kept)), 0))
  bound_one c left =
      if leb (media_bytes c) left then (c, left - media_bytes c) else (text (omitted_note c), left)

  unfoldable pub bound_loop : List ToolContent → ℕ → List ToolContent
  bound_loop [] left = []
  bound_loop (c ∷ cs) left = let (c', left') = bound_one c left in c' ∷ bound_loop cs left'

  -- `boundToolResult`: a bound of zero or less is no bound.
  unfoldable pub bound_tool_result : ℤ → List ToolContent → List ToolContent
  unfolding bound_loop
  bound_tool_result (pos zero) out = out
  bound_tool_result (pos (suc n)) out = bound_loop out (suc n)
  bound_tool_result (negsuc n) out = out

  error_result : ToolUse → Bytes → ToolResult
  error_result u why = record {
    tool_use_id = u.id;
    name = u.name;
    content = tool_text why;
    is_error = true;
  }

  ended : ToolUse → Execution → ToolResult
  unfolding error_result
  ended u (gives out) = record {
    tool_use_id = u.id;
    name = u.name;
    content = out;
    is_error = false;
  }
  ended u (fails why) = error_result u why
  ended u (panics why) = error_result u (codes "tool panicked: " ++ why)

  -- `execTool` before its deferred bound: `run` is what the tool does with this call.
  dispatch : Option Registry → (Tool → Execution) → ToolUse → ToolResult
  unfolding error_result ended
  dispatch none run u =
      error_result u (codes "no tools registered (requested " ++ (p.quote u.name ++ codes ")"))
  dispatch (some tools) run u = elim (get tools u.name) [
    | none ↦ error_result u (codes "unknown tool " ++ p.quote u.name)
    | some t ↦ ended u (run t)
  ]

  unfoldable pub exec_tool : Option Registry → ℤ → (Tool → Execution) → ToolUse → ToolResult
  unfolding dispatch
  exec_tool tools max_bytes run u =
      let r = dispatch tools run u in
      record r { name = u.name; content = bound_tool_result max_bytes r.content }
