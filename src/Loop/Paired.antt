-- ===== src/Loop/Paired.antt =====
-- agent.go: transcripts in which every tool call has its answer, and every answer its call.
use golm.Common.{
  ℕ, zero, suc, ◌≡◌, sym, ap, ◌∙◌, ◌⊎◌, inl, inr, Bool, true, false, List, [], ◌∷◌, ◌++◌, is_empty,
  drop,
}
use mathlib.Core.Bool.{false≢true}
use golm.Content.{Role, tool}
use golm.Message.{Message, tool_uses}
use golm.Observe.Turn.{ToolMessage}

abbrev pub is_tool_role : Role → Bool
is_tool_role tool = true
is_tool_role _ = false

abbrev pub is_tool : Message → Bool
is_tool m = is_tool_role m.role

-- It stands alone: it asks for no tool, and answers none.
abbrev pub IsPlain : Message → Type 0
IsPlain m = (is_empty (tool_uses m) ≡ true) × (is_tool m ≡ false)

-- A message that asks for tools is followed at once by one message of the role tool that answers
-- its calls, one by one and in order, and there is no other message of that role.
abbrev pub Paired : List Message → Type 0
Paired [] = Unit {0}
Paired (m ∷ []) = IsPlain m
Paired (m ∷ t ∷ h) =
    (IsPlain m × Paired (t ∷ h)) ⊎ ((is_tool m ≡ false) × ToolMessage (tool_uses m) t × Paired h)

cons-Paired : (m : Message) (h : List Message) → IsPlain m → Paired h → Paired (m ∷ h)
cons-Paired m [] q a = q
cons-Paired m (t ∷ h) q a = inl (q, a)

pub Paired-append : (h k : List Message) → Paired h → Paired k → Paired (h ++ k)
Paired-append [] k a b = b
Paired-append (m ∷ []) k a b = cons-Paired m k a b
Paired-append (m ∷ t ∷ h) k (inl (q, a)) b = inl (q, Paired-append (t ∷ h) k a b)
Paired-append (m ∷ t ∷ h) k (inr (n, am, a)) b = inr (n, am, Paired-append h k a b)

pub pair-Paired :
    (m t : Message) → is_tool m ≡ false → ToolMessage (tool_uses m) t → Paired (m ∷ t ∷ [])
pair-Paired m t n am = inr (n, am, tt)

-- The next message, if there is one, is no answer.
abbrev pub NoAnswerFirst : List Message → Type 0
NoAnswerFirst [] = Unit {0}
NoAnswerFirst (m ∷ h) = is_tool m ≡ false

ToolMessage-is_tool : {us : _} (t : Message) → ToolMessage us t → is_tool t ≡ true
ToolMessage-is_tool t am = ap is_tool am.message_eq

-- A cut in front of a message that is no answer keeps the pairs.
pub Paired-drop :
    (n : ℕ) (h : List Message) → Paired h → NoAnswerFirst (drop n h) → Paired (drop n h)
Paired-drop zero h a f = a
Paired-drop (suc n) [] a f = tt
Paired-drop (suc zero) (m ∷ []) a f = tt
Paired-drop (suc (suc n)) (m ∷ []) a f = tt
Paired-drop (suc n) (m ∷ t ∷ h) (inl (q, a)) f = Paired-drop n (t ∷ h) a f
Paired-drop (suc zero) (m ∷ t ∷ h) (inr (n, am, a)) f =
    absurd (false≢true (sym f ∙ ToolMessage-is_tool t am))
Paired-drop (suc (suc k)) (m ∷ t ∷ h) (inr (n, am, a)) f = Paired-drop k h a f
