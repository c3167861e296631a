-- ===== src/Session/Trimming.antt =====
-- session.go: what the calls that rewrite a transcript leave of it.
use golm.Common.{
  ℕ, suc, ◌≡◌, refl, ap, ◌∙◌, Option, none, some, List, pos, ◌==◌, if◌then◌else◌, arith, length,
  drop, take-append, length-append,
}
use golm.Message.{Message}
use golm.History.{returns, user_boundary}
use golm.History.Laws.{Boundary, user_boundary-Boundary}
use golm.Session.{Session, next_rev, append, trim, cut, rollback}

abbrev pub cut_at : Session → Option ℕ → Session
cut_at s none = s
cut_at s (some start) = record s { history = drop start s.history; rev = next_rev s.rev }

cut-cut_at : (s : Session) (r : Option ℕ) → cut (returns r) s ≡ returns (cut_at s r)
unfolding cut
cut-cut_at s none = refl
cut-cut_at s (some n) = refl

trim-cut :
    (s : Session) (k : ℕ) → trim (pos (suc k)) s ≡ cut (user_boundary s.history (pos (suc k))) s
unfolding trim
trim-cut s k = ground arith

-- `Trim` with a positive bound never panics. It cuts at the boundary that is specified, keeps
-- everything from there on verbatim and counts one revision, or changes nothing when there is none.
pub trim-Boundary :
    (s : Session) (k : ℕ)
    → (r : Option ℕ) × (trim (pos (suc k)) s ≡ returns (cut_at s r)) × Boundary s.history (suc k) r
trim-Boundary s k =
    let (r, e, b) = user_boundary-Boundary s.history k in
    (r, trim-cut s k ∙ (ap (λ c. cut c s) e ∙ cut-cut_at s r), b)

-- Right after messages were appended, `rollback` at the length from before takes them back and
-- counts a revision when it is one message, and changes nothing when it is any other number.
pub rollback-append :
    (s : Session) (ms : List Message) (now later : ℕ)
    → rollback (pos (length s.history)) later (append ms now s) ≡ (
        if length ms == 1
        then record s { updated = later; rev = next_rev s.rev }
        else append ms now s)
unfolding rollback append
rollback-append s ms now later =
    let e = length-append s.history ms in let f = take-append s.history ms in ground (arith, e, f)
