-- ===== src/Scanner/Progress.antt =====
-- internal/sse/sse.go: the scanner gets on.
use golm.Common.{
  ℕ, zero, suc, ◌-◌, ◌≤◌, ◌<◌, ◌≡◌, refl, sym, ap, subst, ◌∙◌, ◌⊎◌, inl, inr, true, Option, none,
  some, List, [], ◌∷◌, ◌++◌, Bytes, leb, ◌==◌, if◌then◌else◌, if_split, length, is_empty, arith,
}
use golm.Scanner.{
  ReadError, eof, broken, line_too_long, event_too_long, Reader, newline, carriage_return,
  after_return, Line, read_bytes, without_bom, strip_bom, read_line, trim_right, Pending,
  nothing_pending, Read, goes_on, returns, fails, dispatch, take_line, at_end, then_error, by_line,
  next_by, Next, event, error, out_of_fuel, next_from, next_with,
}

length-after_return : (s : Bytes) → length (after_return s) ≤ length s
unfolding after_return
length-after_return [] = omega arith
length-after_return (b ∷ s) = ground arith

read_bytes_rest :
    (max : ℕ) (end : ReadError) (sb s : Bytes) → length (read_bytes max end sb s).rest ≤ length s
unfolding read_bytes
read_bytes_rest max end sb [] = omega arith
read_bytes_rest max end sb (b ∷ s) =
    if_split (λ (l : Line). length l.rest ≤ suc (length s)) (b == newline) _ _ (omega arith)
      (if_split (λ (l : Line). length l.rest ≤ suc (length s)) (b == carriage_return) _ _
        (omega (arith, length-after_return s))
        (if_split (λ (l : Line). length l.rest ≤ suc (length s)) (leb max (length sb)) _ _
          (omega arith) (omega (arith, read_bytes_rest max end (sb ++ b ∷ []) s))))

-- A line takes at least one byte, if there is one.
read_bytes_shorter :
    (max : ℕ) (end : ReadError) (sb : Bytes) (b : ℕ) (s : Bytes)
    → length (read_bytes max end sb (b ∷ s)).rest ≤ length s
unfolding read_bytes
read_bytes_shorter max end sb b s =
    if_split (λ (l : Line). length l.rest ≤ length s) (b == newline) _ _ (omega arith)
      (if_split (λ (l : Line). length l.rest ≤ length s) (b == carriage_return) _ _
        (length-after_return s)
        (if_split (λ (l : Line). length l.rest ≤ length s) (leb max (length sb)) _ _ (omega arith)
          (read_bytes_rest max end (sb ++ b ∷ []) s)))

length-without_bom : (s : Bytes) → length (without_bom s) ≤ length s
unfolding without_bom
length-without_bom [] = omega arith
length-without_bom (a ∷ []) = omega arith
length-without_bom (a ∷ b ∷ []) = omega arith
length-without_bom (a ∷ b ∷ c ∷ s) = ground arith

length-strip_bom : (r : Reader) → length (strip_bom r).rest ≤ length r.rest
unfolding strip_bom
length-strip_bom r =
    if_split (λ (q : Reader). length q.rest ≤ length r.rest) r.bom_done _ _ (omega arith)
      (length-without_bom r.rest)

-- A read that found no error took a byte.
read_bytes_takes :
    (max : ℕ) (end : ReadError) (s : Bytes)
    → (read_bytes max end [] s).err ≡ none
    → length (read_bytes max end [] s).rest < length s
unfolding read_bytes
read_bytes_takes max end [] e = cc
read_bytes_takes max end (b ∷ s) e = let l = read_bytes_shorter max end [] b s in omega arith

read_line_takes :
    (max : ℕ) (r : Reader)
    → (read_line max r).err ≡ none
    → length (read_line max r).rest < length r.rest
unfolding read_line
read_line_takes max r e =
    omega (arith, read_bytes_takes max r.end (strip_bom r).rest e, length-strip_bom r)

read_line_rest : (max : ℕ) (r : Reader) → length (read_line max r).rest ≤ length r.rest
unfolding read_line
read_line_rest max r =
    omega (arith, read_bytes_rest max r.end [] (strip_bom r).rest, length-strip_bom r)

lines_cases : (l : List Bytes) → (l ≡ []) ⊎ ((x : Bytes) × (xs : List Bytes) × (l ≡ x ∷ xs))
lines_cases [] = inl refl
lines_cases (x ∷ xs) = inr (x, xs, refl)

-- The end of the reader is the end of `Next`.
at_end_ends : (x : ReadError) (p q : Pending) → at_end x p ≡ goes_on q → none ≡ some x
unfolding at_end dispatch
at_end_ends eof p q e = elim (lines_cases p.lines) [
  | inl n ↦ let w = rw n at e in cc
  | inr (l, ls, n) ↦ let w = rw n at e in cc
]
at_end_ends (broken x) p q e = cc
at_end_ends line_too_long p q e = cc
at_end_ends event_too_long p q e = cc

then_error-goes_on :
    (e : Option ReadError) (r : Read) (q : Pending) → then_error e r ≡ goes_on q → e ≡ none
unfolding then_error
then_error-goes_on none r q h = refl
then_error-goes_on (some x) (returns y) q h = cc
then_error-goes_on (some x) (fails y) q h = cc
then_error-goes_on (some x) (goes_on p) q h = sym (at_end_ends x p q h)

-- `Next` ends, and leaves at most `n` bytes to read when it has an event.
abbrev pub Progress : ℕ → Next → Type 0
Progress n (event e r) = length r.rest ≤ n
Progress n (error x r) = Unit {0}
Progress n out_of_fuel = ⊥

Progress-le : (n m : ℕ) (x : Next) → n ≤ m → Progress n x → Progress m x
Progress-le n m (event e r) l p = omega (arith, l, p)
Progress-le n m (error x r) l p = tt
Progress-le n m out_of_fuel l p = p

next_by-Progress :
    (n : ℕ) (go : Pending → Next) (r : Reader) (x : Read)
    → length r.rest ≤ n
    → ((q : Pending) → x ≡ goes_on q → Progress n (go q))
    → Progress n (next_by go r x)
unfolding next_by
next_by-Progress n go r (returns e) l h = l
next_by-Progress n go r (fails x) l h = tt
next_by-Progress n go r (goes_on q) l h = h q refl

next_from-Progress :
    (fuel max : ℕ) (p : Pending) (r : Reader)
    → length r.rest < fuel
    → Progress (length r.rest) (next_from fuel max p r)
unfolding next_from by_line
next_from-Progress zero max p r l = absurd (omega (arith, l))
next_from-Progress (suc fuel) max p r l =
    let line = read_line max r in
    let r' = record r { rest = line.rest; bom_done = true } in
    next_by-Progress (length r.rest) (λ q. next_from fuel max q r') r' (by_line max line p)
      (read_line_rest max r)
      (λ q e.
        let n = read_line_takes max r (then_error-goes_on line.err _ q e) in
        Progress-le (length r'.rest) (length r.rest) (next_from fuel max q r') (omega (arith, n))
          (next_from-Progress fuel max q r' (omega (arith, n, l))))

ends_with_error : (x : ReadError) → (y : ReadError) × (at_end x nothing_pending ≡ fails y)
unfolding at_end dispatch
ends_with_error eof = (eof, refl)
ends_with_error (broken x) = (broken x, refl)
ends_with_error line_too_long = (line_too_long, refl)
ends_with_error event_too_long = (event_too_long, refl)

bytes_cases : (s : Bytes) → (s ≡ []) ⊎ ((b : ℕ) × (t : Bytes) × (s ≡ b ∷ t))
bytes_cases [] = inl refl
bytes_cases (b ∷ t) = inr (b, t, refl)

read_line_strict :
    (max : ℕ) (r : Reader) → 0 < length r.rest → length (read_line max r).rest < length r.rest
unfolding read_line
read_line_strict max r pos =
    let n = length-strip_bom r in
    elim (bytes_cases (strip_bom r).rest) [
      | inl e ↦
          let w : (read_bytes max r.end [] (strip_bom r).rest).rest ≡ [] =
            ap (λ s. (read_bytes max r.end [] s).rest) e ∙ unfold read_bytes in refl in
          omega (arith, ap length w, pos)
      | inr (b, t, e) ↦
          let w : (read_bytes max r.end [] (strip_bom r).rest).rest
              ≡ (read_bytes max r.end [] (b ∷ t)).rest =
            ap (λ s. (read_bytes max r.end [] s).rest) e in
          omega (arith, ap length w, ap length e, read_bytes_shorter max r.end [] b t, n)
    ]

-- `Next` returns, and leaves fewer than `n` bytes to read when it has an event.
abbrev pub Advances : ℕ → Next → Type 0
Advances n (event e r) = length r.rest < n
Advances n (error x r) = Unit {0}
Advances n out_of_fuel = ⊥

Advances-Progress : (n : ℕ) (x : Next) → 0 < n → Progress (n - 1) x → Advances n x
Advances-Progress n (event e r) l p = omega (arith, l, p)
Advances-Progress n (error x r) l p = tt
Advances-Progress n out_of_fuel l p = p

-- A reader that gives no byte gives no event.
nothing_read :
    (max : ℕ) (r : Reader)
    → (strip_bom r).rest ≡ []
    → (x : Read) × (by_line max (read_line max r) nothing_pending ≡ x)
      × ((e : ReadError) × (x ≡ fails e))
unfolding by_line read_line
nothing_read max r n =
    let w = ap (λ s. read_bytes max r.end [] s) n in
    (
      at_end r.end nothing_pending,
      (ap
            (λ (l : Line). then_error l.err (
              if is_empty l.text
              then goes_on nothing_pending
              else take_line max (trim_right l.text) nothing_pending))
            w
          ∙ unfold read_bytes then_error in refl),
      ends_with_error r.end,
    )

next_with_empty : (max : ℕ) (r : Reader) → r.rest ≡ [] → Advances (length r.rest) (next_with max r)
unfolding next_with next_from
next_with_empty max r e =
    let n : (strip_bom r).rest ≡ [] =
      unfold strip_bom in
      if_split (λ (q : Reader). q.rest ≡ []) r.bom_done _ _ e
        (ap without_bom e ∙ unfold without_bom in refl) in
    let (x, f, (y, g)) = nothing_read max r n in
    let r' = record r { rest = (read_line max r).rest; bom_done = true } in
    subst (λ q. Advances (length r.rest) (next_by (λ p. next_from (length r.rest) max p r') r' q))
      (sym (f ∙ g)) (unfold next_by in tt)

-- `Next` returns on every reader, and an event takes at least one byte of it. So a reader gives
-- finitely many events.
pub next_with-Advances : (max : ℕ) (r : Reader) → Advances (length r.rest) (next_with max r)
unfolding next_with
next_with-Advances max r = elim (bytes_cases r.rest) [
  | inl e ↦ next_with_empty max r e
  | inr (b, t, e) ↦
      let pos : 0 < length r.rest = omega (arith, ap length e) in
      let strict = read_line_strict max r pos in
      let line = read_line max r in
      let r' = record r { rest = line.rest; bom_done = true } in
      Advances-Progress (length r.rest) (next_with max r) pos (
        unfold next_from in
        next_by-Progress (length r.rest - 1) (λ q. next_from (length r.rest) max q r') r'
          (by_line max line nothing_pending) (omega (arith, strict))
          (λ q f.
            Progress-le (length r'.rest) (length r.rest - 1) (next_from (length r.rest) max q r')
              (omega (arith, strict))
              (next_from-Progress (length r.rest) max q r' (omega (arith, strict)))))
]
