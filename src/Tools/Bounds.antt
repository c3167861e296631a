-- ===== src/Tools/Bounds.antt =====
-- agent.go: what the cap on a tool's result keeps of it.
use golm.Common.{
  ℕ, zero, suc, ◌+◌, ◌-◌, ◌≤◌, ◌<◌, ◌≡◌, refl, sym, ap, ◌∙◌, ◌⊎◌, inl, inr, true, Bool-cases, some,
  List, [], ◌∷◌, ◌++◌, Bytes, arith, pos, leb, if◌then◌else◌, length, get_elem?, take, drop,
  take-append-drop, length-take, length-append, get_elem?-lt,
}
use golm.Content.{ToolContent, text, image, audio}
use golm.Tools.{
  Printer, rune_start, rune_cut, trunc_runes, media_bytes, truncated_note, omitted_note, bound_one,
  bound_loop, bound_tool_result,
}

-- Where the text is cut: not beyond `n`, and at the front or at the start of a character.
rune_cut-lem :
    (s : Bytes) (n : ℕ)
    → n < length s
    → (rune_cut s n ≤ n)
      × ((rune_cut s n ≡ 0)
          ⊎ ((b : ℕ) × (get_elem? s (rune_cut s n) ≡ some b) × (rune_start b ≡ true)))
unfolding rune_cut
rune_cut-lem s zero h = (omega arith, inl refl)
rune_cut-lem s (suc n) h =
    let (b, e) = get_elem?-lt s (suc n) h in
    elim (Bool-cases (rune_start b)) [
      | inl r ↦ rw (e, rune_cut) (rw r (omega arith, inr (b, e, r)))
      | inr r ↦
          let (le, at) = rune_cut-lem s n (omega arith) in rw (e, rune_cut) (rw r (omega arith, at))
    ]

abbrev pub size : ToolContent → ℕ
size (text s) = length s
size (image i) = media_bytes (image i)
size (audio a) = media_bytes (audio a)

-- A text is cut in front of the first byte of a character, or nothing of it is kept.
abbrev pub CutWell : Bytes → Bytes → Type 0
CutWell s kept =
    (kept ≡ []) ⊎ ((b : ℕ) × (get_elem? s (length kept) ≡ some b) × (rune_start b ≡ true))

-- What stands for a block in the bounded result, and how many of its bytes.
pub data Keeps (p : Printer) (c c' : ToolContent) (n : ℕ) : Type 0 where
  whole : c' ≡ c → n ≡ size c → Keeps p c c' n
  head :
      (s kept rest : Bytes)
      → c ≡ text s
      → s ≡ kept ++ rest
      → CutWell s kept
      → c' ≡ text (kept ++ truncated_note p (length rest))
      → n ≡ length kept
      → Keeps p c c' n
  left_out : c' ≡ text (omitted_note p c) → n ≡ 0 → Keeps p c c' n

-- Block by block, in order.
pub data KeepsAll (p : Printer) : List ToolContent → List ToolContent → ℕ → Type 0 where
  done : KeepsAll p [] [] 0
  next :
      {c c' : ToolContent} {cs cs' : List ToolContent} {n m k : ℕ}
      → Keeps p c c' n
      → KeepsAll p cs cs' m
      → k ≡ n + m
      → KeepsAll p (c ∷ cs) (c' ∷ cs') k

rest_length : (s : Bytes) (k : ℕ) → length s ≡ length (take k s) + length (drop k s)
rest_length s k = ap length (sym (take-append-drop k s)) ∙ length-append (take k s) (drop k s)

take-CutWell :
    (s : Bytes) (n : ℕ)
    → n < length s
    → CutWell s (take (rune_cut s n) s) × (length (take (rune_cut s n) s) ≤ n)
take-CutWell s n h =
    let (le, at) = rune_cut-lem s n h in
    let l : length (take (rune_cut s n) s) ≡ rune_cut s n =
      omega (arith, length-take (rune_cut s n) s) in
    (elim at [ inl z ↦ inl (rw z) | inr (b, e, r) ↦ inr (b, rw l e, r) ], omega arith)

module _ (p : Printer) where
  abbrev One : ToolContent → ℕ → ToolContent × ℕ → Type 0
  One c left (c', left') = (n : ℕ) × Keeps p c c' n × (n + left' ≤ left)

  text-One : (s : Bytes) (left : ℕ) → One (text s) left (bound_one p (text s) left)
  unfolding bound_one trunc_runes
  text-One s left = elim (Bool-cases (leb (length s) left)) [
    | inl f ↦ rw f (length s, whole refl refl, ground arith)
    | inr f ↦
        let (w, l) = take-CutWell s left (ground arith) in
        let kept = take (rune_cut s left) s in
        let e : length s - length kept ≡ length (drop (rune_cut s left) s) =
          omega (arith, rest_length s (rune_cut s left)) in
        rw f (
          length kept,
          head s kept (drop (rune_cut s left) s) refl (sym (take-append-drop (rune_cut s left) s)) w
              (ap (λ o. text (kept ++ truncated_note p o)) e) refl,
          omega arith,
        )
  ]

  media-One :
      (c : ToolContent) (left : ℕ)
      → size c ≡ media_bytes c
      → One c left (
          if leb (media_bytes c) left
          then (c, left - media_bytes c)
          else (text (omitted_note p c), left))
  media-One c left e = elim (Bool-cases (leb (media_bytes c) left)) [
    | inl f ↦ rw f (size c, whole refl refl, ground arith)
    | inr f ↦ rw f (0, left_out refl refl, omega arith)
  ]

  bound_one-One : (c : ToolContent) (left : ℕ) → One c left (bound_one p c left)
  unfolding bound_one
  bound_one-One (text s) left = text-One s left
  bound_one-One (image i) left = media-One (image i) left refl
  bound_one-One (audio a) left = media-One (audio a) left refl

  bound_loop-KeepsAll :
      (cs : List ToolContent) (left : ℕ)
      → (n : ℕ) × KeepsAll p cs (bound_loop p cs left) n × (n ≤ left)
  unfolding bound_loop
  bound_loop-KeepsAll [] left = (0, done, omega arith)
  bound_loop-KeepsAll (c ∷ cs) left =
      let (n, k, l) = bound_one-One c left in
      let (m, ks, ls) = bound_loop-KeepsAll cs (bound_one p c left).1 in
      (n + m, next k ks refl, omega arith)

  -- Under a positive cap of n bytes a result keeps at most n bytes of what the tool returned,
  -- whatever that was. Block by block and in order, each is whole, or a text that is cut in front
  -- of a character with a note of how many bytes are missing, or is replaced by a note.
  pub bound_tool_result-KeepsAll :
      (n : ℕ) (out : List ToolContent)
      → (kept : ℕ) × KeepsAll p out (bound_tool_result p (pos (suc n)) out) kept × (kept ≤ suc n)
  unfolding bound_tool_result
  bound_tool_result-KeepsAll n out = bound_loop-KeepsAll out (suc n)

  abbrev pub total_size : List ToolContent → ℕ
  total_size [] = 0
  total_size (c ∷ cs) = size c + total_size cs

  bound_loop_fits :
      (cs : List ToolContent) (left : ℕ) → total_size cs ≤ left → bound_loop p cs left ≡ cs
  unfolding bound_loop bound_one
  bound_loop_fits [] left h = refl
  bound_loop_fits (text s ∷ cs) left h = ground (arith, bound_loop_fits cs (left - length s))
  bound_loop_fits (image i ∷ cs) left h =
      ground (arith, bound_loop_fits cs (left - media_bytes (image i)))
  bound_loop_fits (audio a ∷ cs) left h =
      ground (arith, bound_loop_fits cs (left - media_bytes (audio a)))

  -- A result that is within the cap comes through unchanged.
  pub bound_tool_result_fits :
      (n : ℕ) (out : List ToolContent) → total_size out ≤ n → bound_tool_result p (pos n) out ≡ out
  unfolding bound_tool_result
  bound_tool_result_fits zero out h = refl
  bound_tool_result_fits (suc n) out h = bound_loop_fits out (suc n) h
