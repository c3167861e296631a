-- ===== src/Message/Json/RoundTrip.antt =====
-- message.go: what comes back from the canonical form.
use golm.Common.{
  ◌≡◌, refl, ap, ◌∙◌, ◌⊎◌, inl, inr, Bool-cases, Bool, true, false, not, ◌||◌, some, List, [], ◌∷◌,
  map, Bytes, codes, arith, bytes_eq, is_empty, if_true, if_false,
}
use golm.Content.{
  Content, text, thinking, plan, image, audio, tool_use, tool_result, ToolResult, ToolContent,
  tool_text,
}
use golm.Message.{Message}
use golm.Message.Json.{
  Json, Inner, Outer, of_kind, tool_content_envelope, fill_result, tool_contents_from, content_from,
  contents_from, of_envelopes, unmarshal, sent_input, content_envelope, envelopes, marshal,
}
use golm.Message.Json.Tidy.{Tidy, tidy_inner, tidy_outer, tidy_part, tidy}

-- What the form does not tell apart: a call's unusable input from an empty object, and a result
-- that is one empty text from an empty result.
abbrev pub normal_parts : List ToolContent → List ToolContent
normal_parts (ToolContent.text [] ∷ []) = []
normal_parts cs = cs

abbrev pub normal : (Bytes → Bool) → Content → Content
normal valid (tool_use u) = tool_use (record u { input = sent_input valid u.input })
normal valid (tool_result r) = tool_result (record r { content = normal_parts r.content })
normal valid c = c

abbrev pub is_foreign : Content → Bool
is_foreign (Content.foreign k) = true
is_foreign c = false

abbrev pub any_foreign : List Content → Bool
any_foreign [] = false
any_foreign (c ∷ cs) = is_foreign c || any_foreign cs

-- No input of a call is sent that is not valid JSON.
abbrev pub HasValidInput : (Bytes → Bool) → Outer → Type 0
HasValidInput valid e = (e.input ≡ []) ⊎ (valid e.input ≡ true)

abbrev pub AllValidInput : (Bytes → Bool) → List Outer → Type 0
AllValidInput valid [] = Unit {0}
AllValidInput valid (e ∷ es) = HasValidInput valid e × AllValidInput valid es

-- What a message relies on of encoding/json: an empty object is valid, and the message's envelopes,
-- if their inputs are valid, are printed, and read as they are but for what becomes of texts and
-- raw JSON.
pub record Reads (json : Json) (d : Tidy) (m : Message) : Type 0 where
  pub object_valid : json.valid (codes "{}") ≡ true
  pub reads :
      (es : List Outer)
      → envelopes json.valid m.content ≡ some es
      → AllValidInput json.valid es
      → (b : Bytes) × (json.print (m.role, es) ≡ some b)
        × (json.parse b ≡ some (d.role m.role, map (tidy_outer d) es))

sent_input_valid :
    (valid : Bytes → Bool) (input : Bytes)
    → valid (codes "{}") ≡ true
    → valid (sent_input valid input) ≡ true
unfolding sent_input
sent_input_valid valid input o = elim (Bool-cases (is_empty input || not (valid input))) [
  | inl e ↦ ap valid (if_true e _ _) ∙ o
  | inr e ↦ ap valid (if_false e _ _) ∙ ground (arith, e)
]

module _ (d : Tidy) where
  tool_contents_from-map :
      (cs : List ToolContent)
      → tool_contents_from (map (tidy_inner d) (map tool_content_envelope cs))
        ≡ some (map (tidy_part d) cs)
  unfolding tool_contents_from tool_content_envelope bytes_eq
  tool_contents_from-map [] = refl
  tool_contents_from-map (ToolContent.text s ∷ cs) = rw (tool_contents_from-map cs)
  tool_contents_from-map (ToolContent.image i ∷ cs) = rw (tool_contents_from-map cs)
  tool_contents_from-map (ToolContent.audio a ∷ cs) = rw (tool_contents_from-map cs)

  result_from-envelope :
      (r : ToolResult) (cs : List ToolContent)
      → content_from (
          tidy_outer d (
            fill_result
              (record (of_kind {C = Inner} (codes "tool_result")) {
                tool_use_id = r.tool_use_id;
                name = r.name;
                is_error = r.is_error;
              })
              cs))
        ≡ some (tidy d (tool_result (record r { content = normal_parts cs })))
  unfolding fill_result content_from bytes_eq tool_text
  result_from-envelope r [] = rw (d.text_empty) refl
  result_from-envelope r (ToolContent.text [] ∷ []) = rw (d.text_empty) refl
  result_from-envelope r (ToolContent.text (b ∷ s) ∷ []) = rw (d.text_full b s) refl
  result_from-envelope r (ToolContent.text [] ∷ c ∷ cs) =
      rw (tool_contents_from-map (ToolContent.text [] ∷ c ∷ cs))
  result_from-envelope r (ToolContent.text (b ∷ s) ∷ c ∷ cs) =
      rw (tool_contents_from-map (ToolContent.text (b ∷ s) ∷ c ∷ cs))
  result_from-envelope r (ToolContent.image i ∷ cs) =
      rw (tool_contents_from-map (ToolContent.image i ∷ cs))
  result_from-envelope r (ToolContent.audio i ∷ cs) =
      rw (tool_contents_from-map (ToolContent.audio i ∷ cs))

  result-HasValidInput :
      (valid : Bytes → Bool) (r : ToolResult) (cs : List ToolContent)
      → HasValidInput valid (
          fill_result
            (record (of_kind {C = Inner} (codes "tool_result")) {
              tool_use_id = r.tool_use_id;
              name = r.name;
              is_error = r.is_error;
            })
            cs)
  unfolding fill_result
  result-HasValidInput valid r [] = inl refl
  result-HasValidInput valid r (ToolContent.text s ∷ []) = inl refl
  result-HasValidInput valid r (ToolContent.text s ∷ c ∷ cs) = inl refl
  result-HasValidInput valid r (ToolContent.image i ∷ cs) = inl refl
  result-HasValidInput valid r (ToolContent.audio i ∷ cs) = inl refl

  -- The envelope of a content, and what is read of it.
  record Enveloped (valid : Bytes → Bool) (c : Content) : Type 0 where
    envelope : Outer
    sent : content_envelope valid c ≡ some envelope
    valid_input : HasValidInput valid envelope
    read : content_from (tidy_outer d envelope) ≡ some (tidy d (normal valid c))

  content-Enveloped :
      (valid : Bytes → Bool)
      → valid (codes "{}") ≡ true
      → (c : Content) → is_foreign c ≡ false
      → Enveloped valid c
  unfolding content_envelope content_from bytes_eq
  content-Enveloped valid o (text s) h = record {
    envelope = _;
    sent = refl;
    valid_input = inl refl;
    read = refl;
  }
  content-Enveloped valid o (thinking s g) h = record {
    envelope = _;
    sent = refl;
    valid_input = inl refl;
    read = refl;
  }
  content-Enveloped valid o (plan s) h = record {
    envelope = _;
    sent = refl;
    valid_input = inl refl;
    read = refl;
  }
  content-Enveloped valid o (image s) h = record {
    envelope = _;
    sent = refl;
    valid_input = inl refl;
    read = refl;
  }
  content-Enveloped valid o (audio s) h = record {
    envelope = _;
    sent = refl;
    valid_input = inl refl;
    read = refl;
  }
  content-Enveloped valid o (tool_use u) h = record {
    envelope = _;
    sent = refl;
    valid_input = inr (sent_input_valid valid u.input o);
    read = refl;
  }
  content-Enveloped valid o (tool_result r) h = record {
    envelope = _;
    sent = refl;
    valid_input = result-HasValidInput valid r r.content;
    read = result_from-envelope r r.content;
  }
  content-Enveloped valid o (Content.foreign k) h = cc

  contents_from-envelopes :
      (valid : Bytes → Bool)
      → valid (codes "{}") ≡ true
      → (cs : List Content) → any_foreign cs ≡ false
      → (es : List Outer) × (envelopes valid cs ≡ some es)
        × AllValidInput valid es
        × (contents_from (map (tidy_outer d) es) ≡ some (map (λ c. tidy d (normal valid c)) cs))
  unfolding envelopes contents_from
  contents_from-envelopes valid o [] h = ([], refl, tt, refl)
  contents_from-envelopes valid o (c ∷ cs) h =
      let x = content-Enveloped valid o c (ground arith) in
      let (es, ps, vs, qs) = contents_from-envelopes valid o cs (ground arith) in
      let p = x.sent in
      let q = x.read in
      (
        x.envelope ∷ es,
        rw (p, envelopes) (rw ps refl),
        (x.valid_input, vs),
        rw (q, contents_from) (rw qs refl),
      )

-- A message without contents of other packages is always encoded, and decodes to the same role and
-- the same contents in order, as encoding/json reads them: with its texts as they come back and the
-- input of a call compacted, except that the input of a tool call that is empty or no valid JSON
-- comes back as an empty object, and a tool result that is one empty text as an empty result.
-- Package encoding/json takes an empty object for valid, and prints the message's envelopes, their
-- inputs being valid, and reads them field by field.
pub unmarshal-marshal :
    (json : Json) (d : Tidy) (m : Message)
    → Reads json d m
    → any_foreign m.content ≡ false
    → (b : Bytes) × (marshal json m ≡ some b)
      × (unmarshal json b
          ≡ some (record {
            role = d.role m.role;
            content = map (λ c. tidy d (normal json.valid c)) m.content;
          }))
unfolding marshal unmarshal of_envelopes
unmarshal-marshal json d m w h =
    let (es, p, v, q) = contents_from-envelopes d json.valid w.object_valid m.content h in
    let (b, e, f) = w.reads es p v in
    (b, rw (p, marshal) e, rw (f, unmarshal) (rw (q, of_envelopes) refl))
