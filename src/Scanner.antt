-- ===== src/Scanner.antt =====
-- internal/sse/sse.go: the scanner of server-sent events. A reader is the bytes that it will give
-- and the error that comes after them. The limit on the size of an event, maxEventBytes, is an
-- argument of all but `next`.
pub mod Progress
pub mod RoundTrip
use golm.Common.{
  ℕ, zero, suc, ◌+◌, Bool, true, false, not, ◌&&◌, ◌||◌, Option, none, some, List, [], ◌∷◌, ◌++◌,
  Bytes, bytes_eq, codes, ltb, leb, ◌==◌, if◌then◌else◌, length, is_empty,
}

pub data ReadError : Type 0 where
  eof : ReadError
  broken : Bytes → ReadError
  line_too_long event_too_long : ReadError

pub record Event : Type 0 where
  pub kind : Bytes
  pub content : Bytes
  pub id : Bytes
  pub retry : Bytes

pub record Reader : Type 0 where
  pub rest : Bytes
  pub end : ReadError
  pub bom_done : Bool

abbrev pub newline : ℕ
newline = 10

abbrev pub carriage_return : ℕ
carriage_return = 13

-- A line feed after a carriage return is read with it.
unfoldable pub after_return : Bytes → Bytes
after_return [] = []
after_return (b ∷ s) = if b == newline then s else b ∷ s

pub record Line : Type 0 where
  pub text : Bytes
  pub err : Option ReadError
  pub rest : Bytes

-- The loop of `readLine`.
unfoldable pub read_bytes : ℕ → ReadError → Bytes → Bytes → Line
unfolding after_return
read_bytes max end sb [] = record { text = sb; err = some end; rest = [] }
read_bytes max end sb (b ∷ s) =
    let more = read_bytes max end (sb ++ b ∷ []) s in
    if b == newline
    then record { text = sb ++ newline ∷ []; err = none; rest = s }
    else (if b == carriage_return
        then record { text = sb ++ newline ∷ []; err = none; rest = after_return s }
        else (if leb max (length sb)
            then record { text = []; err = some line_too_long; rest = s }
            else more))

unfoldable pub without_bom : Bytes → Bytes
without_bom (a ∷ b ∷ c ∷ s) = if a == 239 && b == 187 && c == 191 then s else a ∷ b ∷ c ∷ s
without_bom s = s

unfoldable pub strip_bom : Reader → Reader
unfolding without_bom
strip_bom r = if r.bom_done then r else record r { bom_done = true; rest = without_bom r.rest }

-- `readLine`.
unfoldable pub read_line : ℕ → Reader → Line
unfolding read_bytes strip_bom
read_line max r = read_bytes max r.end [] (strip_bom r).rest

-- `strings.TrimRight(line, "\r\n")`.
unfoldable pub trim_right : Bytes → Bytes
trim_right [] = []
trim_right (b ∷ s) =
    let t = trim_right s in
    if is_empty t && (b == newline || b == carriage_return) then [] else b ∷ t

-- `strings.Cut(line, ":")`.
unfoldable pub cut_colon : Bytes → Bytes × Bytes
cut_colon [] = ([], [])
cut_colon (b ∷ s) =
    let (field, value) = cut_colon s in if b == b':' then ([], s) else (b ∷ field, value)

unfoldable pub without_space : Bytes → Bytes
without_space [] = []
without_space (b ∷ s) = if b == b' ' then s else b ∷ s

unfoldable pub has_zero : Bytes → Bool
has_zero [] = false
has_zero (b ∷ s) = let rest = has_zero s in if b == 0 then true else rest

-- What `Next` has gathered: the event, its lines of data and their size.
pub record Pending : Type 0 where
  pub ev : Event
  pub lines : List Bytes
  pub size : ℕ

abbrev pub nothing_pending : Pending
nothing_pending = record {
  ev = record { kind = []; content = []; id = []; retry = [] };
  lines = [];
  size = 0;
}

unfoldable pub join_lines : List Bytes → Bytes
join_lines [] = []
join_lines (l ∷ []) = l
join_lines (l ∷ m ∷ ls) = l ++ newline ∷ join_lines (m ∷ ls)

-- What comes of a line: `Next` goes on, returns an event, or an error.
pub data Read : Type 0 where
  goes_on : Pending → Read
  returns : Event → Read
  fails : ReadError → Read

unfoldable pub dispatch : Pending → Read
unfolding join_lines
dispatch p = elim p.lines [
  | [] ↦ goes_on (record p { ev = record (p.ev) { kind = [] } })
  | l ∷ ls ↦ returns (record (p.ev) { content = join_lines (l ∷ ls) })
]

add_data : ℕ → Bytes → Pending → Read
add_data max value p =
    let size = p.size + (length value + 1) in
    if ltb max size
    then fails event_too_long
    else goes_on (record p { size = size; lines = p.lines ++ value ∷ [] })

unfoldable pub take_field : ℕ → Bytes → Bytes → Pending → Read
unfolding add_data has_zero
take_field max field value p =
    if bytes_eq field (codes "event")
    then goes_on (record p { ev = record (p.ev) { kind = value } })
    else (if bytes_eq field (codes "data")
        then add_data max value p
        else (if bytes_eq field (codes "id")
            then goes_on
                (if has_zero value then p else record p { ev = record (p.ev) { id = value } })
            else (if bytes_eq field (codes "retry")
                then goes_on (record p { ev = record (p.ev) { retry = value } })
                else goes_on p)))

-- A line that is not empty: a comment, or a field.
unfoldable pub take_line : ℕ → Bytes → Pending → Read
unfolding dispatch take_field cut_colon without_space
take_line max [] p = dispatch p
take_line max (b ∷ s) p =
    let (field, value) = cut_colon (b ∷ s) in
    if b == b':' then goes_on p else take_field max field (without_space value) p

-- What the end of the reader adds.
unfoldable pub at_end : ReadError → Pending → Read
unfolding dispatch
at_end eof p = elim (dispatch p) [
  | returns e ↦ returns e
  | goes_on q ↦ fails eof
  | fails x ↦ fails x
]
at_end (broken e) p = fails (broken e)
at_end line_too_long p = fails line_too_long
at_end event_too_long p = fails event_too_long

unfoldable pub then_error : Option ReadError → Read → Read
unfolding at_end
then_error e (returns x) = returns x
then_error e (fails x) = fails x
then_error none (goes_on q) = goes_on q
then_error (some x) (goes_on q) = at_end x q

-- A round of the loop of `Next`, on the line that was read.
unfoldable pub by_line : ℕ → Line → Pending → Read
unfolding take_line trim_right then_error
by_line max l p =
    then_error l.err (if is_empty l.text then goes_on p else take_line max (trim_right l.text) p)

pub data Next : Type 0 where
  event : Event → Reader → Next
  error : ReadError → Reader → Next
  out_of_fuel : Next

unfoldable pub next_by : (Pending → Next) → Reader → Read → Next
next_by go r (returns e) = event e r
next_by go r (fails x) = error x r
next_by go r (goes_on q) = go q

unfoldable pub next_from : ℕ → ℕ → Pending → Reader → Next
unfolding read_line by_line next_by
next_from zero max p r = out_of_fuel
next_from (suc fuel) max p r =
    let l = read_line max r in
    let r' = record r { rest = l.rest; bom_done = true } in
    next_by (λ q. next_from fuel max q r') r' (by_line max l p)

-- `Next`: each round but the last reads a byte.
unfoldable pub next_with : ℕ → Reader → Next
unfolding next_from
next_with max r = next_from (suc (length r.rest)) max nothing_pending r

unfoldable pub max_event_bytes : ℕ
max_event_bytes = 16777216

unfoldable pub next : Reader → Next
unfolding next_with max_event_bytes
next r = next_with max_event_bytes r
