-- ===== src/Prompt/Sections.antt =====
-- prompt.go: what the sections on the wire keep of a prompt.
use golm.Common.{
  ◌≡◌, refl, sym, ap, ◌∙◌, inl, inr, true, false, Bool, ◌||◌, if◌then◌else◌, Bool-cases, [], ◌∷◌,
  ◌++◌, append_assoc, append-nil, is_empty, arith,
}
use golm.Prompt.{
  PromptSection, SystemPrompt, mark_last, sections_onto, sections, parts, prompt_text,
}

parts-mark_last : (p : SystemPrompt) → parts (mark_last p) ≡ parts p
unfolding parts mark_last
parts-mark_last [] = refl
parts-mark_last (s ∷ []) = refl
parts-mark_last (s ∷ t ∷ p) = ground (arith, parts-mark_last (t ∷ p))

parts-append : (p q : SystemPrompt) → parts (p ++ q) ≡ parts p ++ parts q
unfolding parts
parts-append [] q = refl
parts-append (s ∷ p) q = ground (arith, parts-append p q)

one : (s : PromptSection) → is_empty s.text ≡ false → parts (s ∷ []) ≡ s.text ∷ []
unfolding parts
one s e = rw e refl

parts-sections_onto : (out p : SystemPrompt) → parts (sections_onto out p) ≡ parts out ++ parts p
unfolding sections_onto parts
parts-sections_onto out [] = sym (append-nil (parts out))
parts-sections_onto out (s ∷ p) = elim (Bool-cases (is_empty s.text)) [
  | inl e ↦ elim (Bool-cases s.cache) [
    | inl c ↦ rw e (
        rw c (parts-sections_onto (mark_last out) p ∙ ap (λ x. x ++ parts p) (parts-mark_last out)))
    | inr c ↦ rw e (rw c (parts-sections_onto out p))
  ]
  | inr e ↦ rw e (
      parts-sections_onto (out ++ s ∷ []) p
      ∙ (ap (λ x. x ++ parts p) (parts-append out (s ∷ []))
          ∙ rw (one s e) (append_assoc (parts out) (s.text ∷ []) (parts p))))
]

-- No section is empty.
abbrev pub AllFull : SystemPrompt → Type 0
AllFull [] = Unit {0}
AllFull (s ∷ p) = (is_empty s.text ≡ false) × AllFull p

AllFull-mark_last : (p : SystemPrompt) → AllFull p → AllFull (mark_last p)
unfolding mark_last
AllFull-mark_last [] h = tt
AllFull-mark_last (s ∷ []) h = h
AllFull-mark_last (s ∷ t ∷ p) h = (h.0, AllFull-mark_last (t ∷ p) h.1)

AllFull-snoc :
    (p : SystemPrompt) (s : PromptSection)
    → AllFull p
    → is_empty s.text ≡ false
    → AllFull (p ++ s ∷ [])
AllFull-snoc [] s h e = (e, tt)
AllFull-snoc (t ∷ p) s h e = (h.0, AllFull-snoc p s h.1 e)

sections_onto-AllFull : (out p : SystemPrompt) → AllFull out → AllFull (sections_onto out p)
unfolding sections_onto
sections_onto-AllFull out [] h = h
sections_onto-AllFull out (s ∷ p) h = elim (Bool-cases (is_empty s.text)) [
  | inl e ↦ elim (Bool-cases s.cache) [
    | inl c ↦ rw e (rw c (sections_onto-AllFull (mark_last out) p (AllFull-mark_last out h)))
    | inr c ↦ rw e (rw c (sections_onto-AllFull out p h))
  ]
  | inr e ↦ rw e (sections_onto-AllFull (out ++ s ∷ []) p (AllFull-snoc out s h e))
]

sections_onto_full : (out p : SystemPrompt) → AllFull p → sections_onto out p ≡ out ++ p
unfolding sections_onto
sections_onto_full out [] h = sym (append-nil out)
sections_onto_full out (s ∷ p) h =
    rw (h.0) (sections_onto_full (out ++ s ∷ []) p h.1 ∙ append_assoc out (s ∷ []) p)

-- Whether one of the empty sections that a prompt starts with is marked.
abbrev pub trailing : SystemPrompt → Bool
trailing [] = false
trailing (s ∷ p) = if is_empty s.text then s.cache || trailing p else false

-- The sections that have a text. One is marked when it was, or when one of the empty sections right
-- behind it was.
abbrev pub wire : SystemPrompt → SystemPrompt
wire [] = []
wire (s ∷ p) =
    if is_empty s.text then wire p else record s { cache = s.cache || trailing p } ∷ wire p

marked : Bool → SystemPrompt → SystemPrompt
marked b out = if b then mark_last out else out

marked-snoc :
    (b : Bool) (out : SystemPrompt) (s : PromptSection)
    → marked b (out ++ s ∷ []) ≡ out ++ record s { cache = s.cache || b } ∷ []
unfolding marked mark_last
marked-snoc false out s = ground arith
marked-snoc true [] s = ground arith
marked-snoc true (t ∷ []) s = ground arith
marked-snoc true (t ∷ u ∷ out) s = ap (◌∷◌ t) (marked-snoc true (u ∷ out) s)

marked-mark_last : (b : Bool) (out : SystemPrompt) → marked b (mark_last out) ≡ mark_last out
unfolding marked mark_last
marked-mark_last false out = refl
marked-mark_last true [] = refl
marked-mark_last true (s ∷ []) = refl
marked-mark_last true (s ∷ t ∷ []) = refl
marked-mark_last true (s ∷ t ∷ u ∷ out) = ap (◌∷◌ s) (marked-mark_last true (t ∷ u ∷ out))

sections_onto-wire :
    (out p : SystemPrompt) → sections_onto out p ≡ marked (trailing p) out ++ wire p
unfolding sections_onto marked
sections_onto-wire out [] = sym (append-nil out)
sections_onto-wire out (s ∷ p) = elim (Bool-cases (is_empty s.text)) [
  | inl e ↦ elim (Bool-cases s.cache) [
    | inl c ↦ rw e (
        rw c (
          sections_onto-wire (mark_last out) p
          ∙ ap (λ x. x ++ wire p) (marked-mark_last (trailing p) out)))
    | inr c ↦ rw e (rw c (sections_onto-wire out p))
  ]
  | inr e ↦ rw e (
      sections_onto-wire (out ++ s ∷ []) p
      ∙ (ap (λ x. x ++ wire p) (marked-snoc (trailing p) out s)
          ∙ append_assoc out (record s { cache = s.cache || trailing p } ∷ []) (wire p)))
]

marked_none : (b : Bool) → marked b [] ≡ []
unfolding marked mark_last
marked_none false = refl
marked_none true = refl

-- The sections on the wire are those of the prompt that have a text, in order, and one of them is
-- marked for the cache exactly when it was, or when one of the empty sections that follow it
-- directly was. So none is empty, they read as the same prompt text, and taking the sections once
-- more changes nothing.
pub sections_lem :
    (p : SystemPrompt)
    → (sections p ≡ wire p)
      × AllFull (sections p)
      × (prompt_text (sections p) ≡ prompt_text p)
      × (sections (sections p) ≡ sections p)
unfolding sections prompt_text parts
sections_lem p =
    let full = sections_onto-AllFull [] p tt in
    (
      sections_onto-wire [] p ∙ ap (λ x. x ++ wire p) (marked_none (trailing p)),
      full,
      rw (parts-sections_onto [] p),
      sections_onto_full [] (sections_onto [] p) full,
    )
