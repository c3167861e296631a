-- ===== src/Prompt.antt =====
-- prompt.go: the system prompt as sections, some of which end a cached span.
pub mod Sections
use golm.Common.{
  ℕ, Bool, true, false, ◌||◌, ◌&&◌, List, [], ◌∷◌, ◌++◌, map, Bytes, is_empty, if◌then◌else◌,
}

pub record PromptSection : Type 0 where
  pub text : Bytes
  pub cache : Bool

abbrev pub SystemPrompt : Type 0
SystemPrompt = List PromptSection

add_texts : List Bytes → SystemPrompt
add_texts [] = []
add_texts ([] ∷ ts) = add_texts ts
add_texts ((b ∷ t) ∷ ts) = record { text = b ∷ t; cache = false } ∷ add_texts ts

unfoldable pub add : SystemPrompt → List Bytes → SystemPrompt
unfolding add_texts
add p texts = p ++ add_texts texts

-- `out[len(out)-1].Cache = true`, where there is one.
unfoldable pub mark_last : SystemPrompt → SystemPrompt
mark_last [] = []
mark_last (s ∷ []) = record s { cache = true } ∷ []
mark_last (s ∷ t ∷ p) = s ∷ mark_last (t ∷ p)

unfoldable pub break_after : SystemPrompt → SystemPrompt
unfolding mark_last
break_after p = mark_last p

-- The loop of `Sections`, over the sections that are out already.
sections_onto : SystemPrompt → SystemPrompt → SystemPrompt
unfolding mark_last
sections_onto out [] = out
sections_onto out (s ∷ p) =
    sections_onto
      (if is_empty s.text then (if s.cache then mark_last out else out) else out ++ s ∷ []) p

unfoldable pub sections : SystemPrompt → SystemPrompt
unfolding sections_onto
sections p = sections_onto [] p

-- The texts that `Text` joins by a blank line.
unfoldable pub parts : SystemPrompt → List Bytes
parts [] = []
parts (s ∷ p) = if is_empty s.text then parts p else s.text ∷ parts p

join_from : Bytes → List Bytes → Bytes
join_from t [] = t
join_from t (u ∷ us) = t ++ (10 ∷ 10 ∷ join_from u us)

join : List Bytes → Bytes
unfolding join_from
join [] = []
join (t ∷ ts) = join_from t ts

unfoldable pub prompt_text : SystemPrompt → Bytes
unfolding join
prompt_text p = join (parts p)

unfoldable pub cached : SystemPrompt → Bool
cached [] = false
cached (s ∷ p) = s.cache || cached p

unfoldable pub uncached : SystemPrompt → SystemPrompt
unfolding cached
uncached p = if cached p then map (λ (s : PromptSection). record s { cache = false }) p else p
