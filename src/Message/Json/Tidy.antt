-- ===== src/Message/Json/Tidy.antt =====
-- message.go: what encoding/json makes of the fields of an envelope and of a content.
use golm.Common.{ℕ, ◌≡◌, false, [], ◌∷◌, map, Bytes, is_empty}
use golm.Content.{
  Role, Content, text, thinking, plan, image, audio, tool_use, tool_result, Image, Audio,
  ToolContent,
}
use golm.Message.Json.{Inner, Outer}

-- What encoding/json makes of the texts, the role and the raw JSON that it is given: bytes that are
-- no UTF-8 are replaced, and raw JSON is compacted. Bytes stay as they are, in base64.
pub record Tidy : Type 0 where
  pub text : Bytes → Bytes
  pub raw : Bytes → Bytes
  pub role : Role → Role
  -- Nothing is made of nothing, and something of something.
  pub text_empty : text [] ≡ []
  pub text_full : (b : ℕ) (s : Bytes) → is_empty (text (b ∷ s)) ≡ false

module _ (d : Tidy) where
  -- An envelope as it is read again.
  abbrev pub tidy_inner : Inner → Inner
  tidy_inner e = record e {
    text_field = d.text e.text_field;
    signature = d.text e.signature;
    steps = map d.text e.steps;
    media_type = d.text e.media_type;
    url = d.text e.url;
    id = d.text e.id;
    name = d.text e.name;
    input = d.raw e.input;
    tool_use_id = d.text e.tool_use_id;
  }

  abbrev pub tidy_outer : Outer → Outer
  tidy_outer e = record e {
    text_field = d.text e.text_field;
    signature = d.text e.signature;
    steps = map d.text e.steps;
    media_type = d.text e.media_type;
    url = d.text e.url;
    id = d.text e.id;
    name = d.text e.name;
    input = d.raw e.input;
    tool_use_id = d.text e.tool_use_id;
    content = map tidy_inner e.content;
  }

  abbrev pub tidy_image : Image → Image
  tidy_image i = record {
    media_type = d.text i.media_type;
    content = i.content;
    url = d.text i.url;
  }

  abbrev pub tidy_audio : Audio → Audio
  tidy_audio a = record { media_type = d.text a.media_type; content = a.content }

  abbrev pub tidy_part : ToolContent → ToolContent
  tidy_part (ToolContent.text s) = ToolContent.text (d.text s)
  tidy_part (ToolContent.image i) = ToolContent.image (tidy_image i)
  tidy_part (ToolContent.audio a) = ToolContent.audio (tidy_audio a)

  -- A content as it comes back, but for what the form does not tell apart.
  abbrev pub tidy : Content → Content
  tidy (text s) = text (d.text s)
  tidy (thinking s g) = thinking (d.text s) (d.text g)
  tidy (plan ss) = plan (map d.text ss)
  tidy (image i) = image (tidy_image i)
  tidy (audio a) = audio (tidy_audio a)
  tidy (tool_use u) = tool_use (record {
    id = d.text u.id;
    name = d.text u.name;
    input = d.raw u.input;
    signature = d.text u.signature;
  })
  tidy (tool_result r) = tool_result (record r {
    tool_use_id = d.text r.tool_use_id;
    name = d.text r.name;
    content = map tidy_part r.content;
  })
  tidy (Content.foreign k) = Content.foreign k
