-- ===== src/Scanner/RoundTrip.antt =====
-- internal/sse/sse.go and a2a/server.go: what `sendEvent` writes is what the scanner reads.
use golm.Common.{
  ℕ, zero, suc, ◌+◌, ◌-◌, ◌≤◌, ◌≡◌, refl, ap, ◌∙◌, Bool, true, false, ◌&&◌, ◌||◌, Option, none,
  some, List, [], ◌∷◌, ◌++◌, append_assoc, Bytes, bytes_eq, codes, map, leb, ltb, ◌==◌,
  if◌then◌else◌, if_true, if_false, if_split, length, length-append, is_empty, arith,
}
use golm.Scanner.{
  at_end, out_of_fuel, ReadError, eof, Event, Reader, newline, carriage_return, Line, read_bytes,
  without_bom, strip_bom, read_line, trim_right, cut_colon, without_space, Pending, nothing_pending,
  goes_on, returns, dispatch, join_lines, add_data, take_field, take_line, then_error, by_line,
  Next, event, error, next_by, next_from, next_with,
}

-- "data: %s\n\n", as `sendEvent` of the A2A server writes a result.
unfoldable pub frame : Bytes → Bytes
frame b = codes "data: " ++ (b ++ newline ∷ newline ∷ [])

-- The text is on one line, as encoding/json prints it.
abbrev pub OneLine : Bytes → Type 0
OneLine [] = Unit {0}
OneLine (b ∷ s) = ((b == newline) ≡ false) × ((b == carriage_return) ≡ false) × OneLine s

read_bytes-OneLine :
    (max : ℕ) (end : ReadError) (sb p more : Bytes)
    → OneLine p
    → length sb + length p ≤ max
    → read_bytes max end sb (p ++ newline ∷ more)
      ≡ record { text = sb ++ (p ++ newline ∷ []); err = none; rest = more }
unfolding read_bytes
read_bytes-OneLine max end sb [] more o l = refl
read_bytes-OneLine max end sb (b ∷ p) more o l =
    let n : leb max (length sb) ≡ false = ground arith in
    if_false o.0 _ _
    ∙ (if_false o.1 _ _
        ∙ (if_false n _ _
            ∙ (read_bytes-OneLine max end (sb ++ b ∷ []) p more o.2
                  (omega (arith, l, length-append sb (b ∷ [])))
                ∙ ap (λ (t : Bytes). record { text = t; err = none; rest = more })
                    (append_assoc sb (b ∷ []) (p ++ newline ∷ [])))))

kept_byte : (e : Bool) (b : ℕ) (p : Bytes) → (if e && (false || false) then [] else b ∷ p) ≡ b ∷ p
kept_byte true b p = refl
kept_byte false b p = refl

trim_right-OneLine : (p : Bytes) → OneLine p → trim_right (p ++ newline ∷ []) ≡ p
unfolding trim_right
trim_right-OneLine [] o = refl
trim_right-OneLine (b ∷ p) o =
    let a = o.0 in let c = o.1 in rw (trim_right-OneLine p o.2, a, c) (kept_byte (is_empty p) b p)

without_bom-frame : (p more : Bytes) → without_bom (frame p ++ more) ≡ frame p ++ more
unfolding without_bom frame
without_bom-frame p more = refl

strip_bom-frame :
    (r : Reader) (p more : Bytes) → r.rest ≡ frame p ++ more → (strip_bom r).rest ≡ frame p ++ more
unfolding strip_bom
strip_bom-frame r p more e =
    if_split (λ (q : Reader). q.rest ≡ frame p ++ more) r.bom_done _ _ e
      (ap without_bom e ∙ without_bom-frame p more)

frame-append :
    (p more : Bytes) → frame p ++ more ≡ (codes "data: " ++ p) ++ newline ∷ newline ∷ more
unfolding frame
frame-append p more = ap (λ s. codes "data: " ++ s) (append_assoc p (newline ∷ newline ∷ []) more)

-- The pending event after the line of data.
pending_data : Bytes → Pending
pending_data p = record { ev = nothing_pending.ev; lines = p ∷ []; size = 0 + (length p + 1) }

data_event : Bytes → Event
data_event p = record { kind = []; content = p; id = []; retry = [] }

OneLine-data : (p : Bytes) → OneLine p → OneLine (codes "data: " ++ p)
OneLine-data p o =
    (refl, refl, (refl, refl, (refl, refl, (refl, refl, (refl, refl, (refl, refl, o))))))

first_line :
    (max : ℕ) (r : Reader) (p more : Bytes)
    → r.rest ≡ frame p ++ more
    → OneLine p
    → length p + 6 ≤ max
    → read_line max r
      ≡ record { text = (codes "data: " ++ p) ++ newline ∷ []; err = none; rest = newline ∷ more }
unfolding read_line
first_line max r p more e o l =
    ap (read_bytes max r.end []) (strip_bom-frame r p more e ∙ frame-append p more)
    ∙ read_bytes-OneLine max r.end [] (codes "data: " ++ p) (newline ∷ more) (OneLine-data p o)
        (omega (arith, l))

by_first_line :
    (max : ℕ) (p more : Bytes)
    → OneLine p
    → length p + 6 ≤ max
    → by_line max
        (record { text = (codes "data: " ++ p) ++ newline ∷ []; err = none; rest = newline ∷ more })
        nothing_pending
      ≡ goes_on (pending_data p)
unfolding by_line take_line take_field add_data cut_colon without_space then_error pending_data
    bytes_eq
by_first_line max p more o l =
    let n : ltb max (0 + (length p + 1)) ≡ false = ground arith in
    ap (λ t. then_error none (take_line max t nothing_pending))
      (trim_right-OneLine (codes "data: " ++ p) (OneLine-data p o))
    ∙ ap (then_error none) (if_false n _ _)

second_line :
    (max : ℕ) (r : Reader) (more : Bytes)
    → r.rest ≡ newline ∷ more
    → r.bom_done ≡ true
    → read_line max r ≡ record { text = newline ∷ []; err = none; rest = more }
unfolding read_line strip_bom
second_line max r more e d =
    ap (λ (q : Reader). read_bytes max r.end [] q.rest) (if_true d _ _)
    ∙ (ap (read_bytes max r.end []) e ∙ unfold read_bytes in refl)

by_second_line :
    (max : ℕ) (p more : Bytes)
    → by_line max (record { text = newline ∷ []; err = none; rest = more }) (pending_data p)
      ≡ returns (data_event p)
unfolding by_line take_line trim_right then_error dispatch join_lines pending_data data_event
by_second_line max p more = refl

-- What is left of the reader.
after_frame : Reader → Bytes → Reader
after_frame r more = record r { rest = more; bom_done = true }

two_rounds :
    (fuel max : ℕ) (r : Reader) (p more : Bytes)
    → r.rest ≡ frame p ++ more
    → OneLine p
    → length p + 6 ≤ max
    → next_from (suc (suc fuel)) max nothing_pending r ≡ event (data_event p) (after_frame r more)
unfolding next_from next_by after_frame
two_rounds fuel max r p more e o l =
    let r₁ = record r { rest = newline ∷ more; bom_done = true } in
    let go = λ (n : ℕ) (q : Line) (s : Reader) (w : Pending).
      next_by (λ v. next_from n max v (record s { rest = q.rest; bom_done = true }))
        (record s { rest = q.rest; bom_done = true }) (by_line max q w) in
    ap (λ q. go (suc fuel) q r nothing_pending) (first_line max r p more e o l)
    ∙ (ap (next_by (λ v. next_from (suc fuel) max v r₁) r₁)
          (by_first_line max p (newline ∷ more) o l)
        ∙ (ap (λ q. go fuel q r₁ (pending_data p)) (second_line max r₁ more refl refl)
            ∙ ap (next_by (λ v. next_from fuel max v (after_frame r more)) (after_frame r more))
                (by_second_line max p more)))

-- A result that is printed on one line and fits, written by `sendEvent` before anything else, is
-- the data of the next event of the scanner, which then stands before the rest.
pub next_with-frame :
    (max : ℕ) (r : Reader) (p more : Bytes)
    → r.rest ≡ frame p ++ more
    → OneLine p
    → length p + 6 ≤ max
    → next_with max r
      ≡ event
          (record { kind = []; content = p; id = []; retry = [] })
          (record r { rest = more; bom_done = true })
unfolding next_with data_event after_frame
next_with-frame max r p more e o l =
    let n : length r.rest ≡ suc (length (frame p ++ more) - 1) =
      ap length e ∙ unfold frame in omega arith in
    ap (λ k. next_from (suc k) max nothing_pending r) n
    ∙ two_rounds (length (frame p ++ more) - 1) max r p more e o l

-- The results that are written, one after the other.
unfoldable pub frames : List Bytes → Bytes
unfolding frame
frames [] = []
frames (p ∷ ps) = frame p ++ frames ps

unfoldable pub scan_by :
    (Reader → List Event × Option ReadError) → Next → List Event × Option ReadError
scan_by go out_of_fuel = ([], none)
scan_by go (error x r) = ([], some x)
scan_by go (event e r) = let (es, x) = go r in (e ∷ es, x)

-- What a client reads with so many calls of `Next`: the events, and the error that ends them.
unfoldable pub scan : ℕ → ℕ → Reader → List Event × Option ReadError
unfolding scan_by
scan zero max r = ([], none)
scan (suc n) max r = scan_by (scan n max) (next_with max r)

pub next_with-end :
    (max : ℕ) (r : Reader)
    → r.rest ≡ []
    → r.end ≡ eof
    → next_with max r ≡ error eof (record r { rest = []; bom_done = true })
unfolding next_with next_from read_line by_line
next_with-end max r e d =
    let n : (strip_bom r).rest ≡ [] =
      unfold strip_bom in
      if_split (λ (q : Reader). q.rest ≡ []) r.bom_done _ _ e
        (ap without_bom e ∙ unfold without_bom in refl) in
    let l : read_bytes max r.end [] (strip_bom r).rest
        ≡ record { text = []; err = some eof; rest = [] } =
      ap (λ s. read_bytes max r.end [] s) n
      ∙ (ap (λ x. read_bytes max x [] []) d ∙ unfold read_bytes in refl) in
    ap
      (λ (q : Line).
        next_by (λ v. next_from (length r.rest) max v (record r { rest = q.rest; bom_done = true }))
          (record r { rest = q.rest; bom_done = true }) (by_line max q nothing_pending))
      l
    ∙ unfold next_by then_error at_end dispatch in refl

-- Each text is on one line and fits.
abbrev pub Fit : ℕ → List Bytes → Type 0
Fit max [] = Unit {0}
Fit max (p ∷ ps) = (OneLine p × (length p + 6 ≤ max)) × Fit max ps

-- Results that are printed on one line and fit, written by `sendEvent` one after the other, are
-- what the scanner reads, each as the data of one event, in order, up to the end of the stream.
pub scan-frames :
    (max : ℕ) (ps : List Bytes) (r : Reader)
    → r.rest ≡ frames ps
    → r.end ≡ eof
    → Fit max ps
    → scan (suc (length ps)) max r
      ≡ (map (λ p. record { kind = []; content = p; id = []; retry = [] }) ps, some eof)
unfolding scan scan_by frames
scan-frames max [] r e d f = ap (scan_by (scan 0 max)) (next_with-end max r e d)
scan-frames max (p ∷ ps) r e d f =
    let r' = record r { rest = frames ps; bom_done = true } in
    let ev : Event = record { kind = []; content = p; id = []; retry = [] } in
    ap (scan_by (scan (suc (length ps)) max)) (next_with-frame max r p (frames ps) e f.0.0 f.0.1)
    ∙ ap (λ (q : List Event × Option ReadError). (ev ∷ q.0, q.1)) (scan-frames max ps r' refl d f.1)
