-- ===== src/Message/Json.antt =====
-- message.go: the canonical form of a message. What encoding/json validates, prints and reads is an
-- argument.
pub mod Tidy
pub mod RoundTrip
use mathlib.Core.Option
use golm.Common.{
  ℕ, ◌≡◌, refl, ap, ◌⊎◌, inl, inr, Bool, true, false, not, ◌||◌, Option, none, some, List, [], ◌∷◌,
  map, Bytes, codes, arith, bytes_eq, is_empty, if◌then◌else◌,
}
use golm.Content.{
  Role, Content, text, thinking, plan, image, audio, tool_use, tool_result, Image, Audio, ToolUse,
  ToolResult, ToolContent, tool_text,
}
use golm.Message.{Message}

-- `contentEnvelope`, over the type of the nested envelopes: only one level of these is ever read,
-- and what they nest in turn stays raw. A field that `omitempty` leaves out has its zero value.
pub record Envelope (C : Type 0) : Type 0 where
  pub kind : Bytes
  pub text_field : Bytes
  pub signature : Bytes
  pub steps : List Bytes
  pub media_type : Bytes
  pub payload : Bytes
  pub url : Bytes
  pub id : Bytes
  pub name : Bytes
  pub input : Bytes
  pub tool_use_id : Bytes
  pub content : List C
  pub is_error : Bool

abbrev pub Inner : Type 0
Inner = Envelope Bytes

abbrev pub Outer : Type 0
Outer = Envelope Inner

abbrev of_kind : {C : Type 0} → Bytes → Envelope C
of_kind k = record {
  kind = k;
  text_field = [];
  signature = [];
  steps = [];
  media_type = [];
  payload = [];
  url = [];
  id = [];
  name = [];
  input = [];
  tool_use_id = [];
  content = [];
  is_error = false;
}

-- The `Kind` methods.
tool_kind : ToolContent → Bytes
tool_kind (ToolContent.text s) = codes "text"
tool_kind (ToolContent.image i) = codes "image"
tool_kind (ToolContent.audio a) = codes "audio"

unfoldable pub kind_of : Content → Bytes
kind_of (text s) = codes "text"
kind_of (thinking s g) = codes "thinking"
kind_of (plan ss) = codes "plan"
kind_of (image i) = codes "image"
kind_of (audio a) = codes "audio"
kind_of (tool_use u) = codes "tool_use"
kind_of (tool_result r) = codes "tool_result"
kind_of (Content.foreign k) = k

unfoldable pub tool_content_envelope : ToolContent → Inner
unfolding tool_kind
tool_content_envelope (ToolContent.text s) =
    record (of_kind {C = Bytes} (tool_kind (ToolContent.text s))) { text_field = s }
tool_content_envelope (ToolContent.image i) =
    record (of_kind {C = Bytes} (tool_kind (ToolContent.image i))) {
      media_type = i.media_type;
      payload = i.content;
      url = i.url;
    }
tool_content_envelope (ToolContent.audio a) =
    record (of_kind {C = Bytes} (tool_kind (ToolContent.audio a))) {
      media_type = a.media_type;
      payload = a.content;
    }

-- The short form for a single text, the list otherwise.
fill_result : Outer → List ToolContent → Outer
unfolding tool_content_envelope
fill_result e [] = e
fill_result e (ToolContent.text s ∷ []) = record e { text_field = s }
fill_result e cs = record e { content = map tool_content_envelope cs }

unfoldable pub tool_result_envelope : ToolResult → Outer
unfolding fill_result
tool_result_envelope r =
    fill_result
      (record (of_kind {C = Inner} (codes "tool_result")) {
        tool_use_id = r.tool_use_id;
        name = r.name;
        is_error = r.is_error;
      })
      r.content

unfoldable pub tool_content_from : Inner → Option ToolContent
tool_content_from e =
    if bytes_eq e.kind (codes "text")
    then some (ToolContent.text e.text_field)
    else if bytes_eq e.kind (codes "image")
    then some
        (ToolContent.image (record { media_type = e.media_type; content = e.payload; url = e.url }))
    else if bytes_eq e.kind (codes "audio")
    then some (ToolContent.audio (record { media_type = e.media_type; content = e.payload }))
    else none

-- The loop over the nested envelopes: the first one that is refused ends it.
unfoldable pub tool_contents_from : List Inner → Option (List ToolContent)
unfolding tool_content_from
tool_contents_from [] = some []
tool_contents_from (e ∷ es) = elim (tool_content_from e) [
  | none ↦ none
  | some c ↦ Option.map (◌∷◌ c) (tool_contents_from es)
]

result_content : Outer → List Inner → Option (List ToolContent)
unfolding tool_contents_from
result_content e [] = some (if is_empty e.text_field then [] else tool_text e.text_field)
result_content e (i ∷ is) = tool_contents_from (i ∷ is)

content_from : Outer → Option Content
unfolding result_content
content_from e =
    if bytes_eq e.kind (codes "text")
    then some (text e.text_field)
    else if bytes_eq e.kind (codes "thinking")
    then some (thinking e.text_field e.signature)
    else if bytes_eq e.kind (codes "plan")
    then some (plan e.steps)
    else if bytes_eq e.kind (codes "image")
    then some (image (record { media_type = e.media_type; content = e.payload; url = e.url }))
    else if bytes_eq e.kind (codes "audio")
    then some (audio (record { media_type = e.media_type; content = e.payload }))
    else if bytes_eq e.kind (codes "tool_use")
    then some
        (tool_use (record { id = e.id; name = e.name; input = e.input; signature = e.signature }))
    else if bytes_eq e.kind (codes "tool_result")
    then Option.map
        (λ cs. tool_result (record {
          tool_use_id = e.tool_use_id;
          name = e.name;
          content = cs;
          is_error = e.is_error;
        }))
        (result_content e e.content)
    else none

contents_from : List Outer → Option (List Content)
unfolding content_from
contents_from [] = some []
contents_from (e ∷ es) = elim (content_from e) [
  | none ↦ none
  | some c ↦ Option.map (◌∷◌ c) (contents_from es)
]

-- What `MarshalJSON` and `UnmarshalJSON` use of encoding/json: `json.Valid`, and printing and reading
-- a role with a list of envelopes, which `none` says is an error.
pub record Json : Type 0 where
  pub valid : Bytes → Bool
  pub print : Role × List Outer → Option Bytes
  pub parse : Bytes → Option (Role × List Outer)

of_envelopes : Role × List Outer → Option Message
unfolding contents_from
of_envelopes (r, es) = Option.map (λ cs. record { role = r; content = cs }) (contents_from es)

-- `UnmarshalJSON`: `none` is the error of the decoder, or that for an unknown kind.
unfoldable pub unmarshal : Json → Bytes → Option Message
unfolding of_envelopes
unmarshal json b = elim (json.parse b) [ none ↦ none | some m ↦ of_envelopes m ]

module _ (valid : Bytes → Bool) where
  -- A call's input that is missing or no JSON is sent as an empty object.
  unfoldable pub sent_input : Bytes → Bytes
  sent_input input = if is_empty input || not (valid input) then codes "{}" else input

  unfoldable pub content_envelope : Content → Option Outer
  unfolding kind_of tool_result_envelope sent_input
  content_envelope (text s) =
      some (record (of_kind {C = Inner} (kind_of (text s))) { text_field = s })
  content_envelope (thinking s g) =
      some (record (of_kind {C = Inner} (kind_of (thinking s g))) { text_field = s; signature = g })
  content_envelope (plan ss) =
      some (record (of_kind {C = Inner} (kind_of (plan ss))) { steps = ss })
  content_envelope (image i) = some (record (of_kind {C = Inner} (kind_of (image i))) {
    media_type = i.media_type;
    payload = i.content;
    url = i.url;
  })
  content_envelope (audio a) = some (record (of_kind {C = Inner} (kind_of (audio a))) {
    media_type = a.media_type;
    payload = a.content;
  })
  content_envelope (tool_use u) = some (record (of_kind {C = Inner} (kind_of (tool_use u))) {
    id = u.id;
    name = u.name;
    input = sent_input u.input;
    signature = u.signature;
  })
  content_envelope (tool_result r) = some (tool_result_envelope r)
  content_envelope (Content.foreign k) = none

  pub envelopes : List Content → Option (List Outer)
  unfolding content_envelope
  envelopes [] = some []
  envelopes (c ∷ cs) = elim (content_envelope c) [
    | none ↦ none
    | some e ↦ Option.map (◌∷◌ e) (envelopes cs)
  ]

-- `MarshalJSON`: `none` is the error for an unknown kind, or that of the printer.
unfoldable pub marshal : Json → Message → Option Bytes
unfolding envelopes
marshal json m = elim (envelopes json.valid m.content) [
  | none ↦ none
  | some es ↦ json.print (m.role, es)
]
