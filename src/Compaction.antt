-- ===== src/Compaction.antt =====
-- compact.go: replacing the head of a transcript by a summary. The mutex is let go while the
-- summariser and the archive hook run, so other calls on the session may come in between: they are
-- the list `meanwhile`. The hooks are the caller's code, and may fail or panic.
pub mod Meanwhile
pub mod Outcome
pub mod Split
use golm.Common.{
  ℕ, zero, suc, ◌+◌, Bool, true, false, Option, none, some, List, [], ◌∷◌, ◌++◌, Bytes, codes, ℤ,
  leb, ◌==◌, if◌then◌else◌, length, get_elem?, take, drop,
}
use golm.Usage.{Usage, no_usage}
use golm.Content.{Role, user, tool}
use golm.Message.{Message, user_text}
use golm.History.{Call, panic, returns, user_boundary}
use golm.Session.{
  Session, append, trim, drop_before, rollback, set_title, set_state, delete_state, add_usage,
  next_rev,
}

-- What a hook of the caller comes to.
pub data Hook (A : Type 0) : Type 0 where
  gives : A → Hook A
  fails : Bytes → Hook A
  panics : Hook A

pub data Error : Type 0 where
  session_changed summariser_panicked archive_panicked : Error
  hook_error : Bytes → Error

pub data Result (A : Type 0) : Type 0 where
  ok : A → Result A
  err : Error → Result A

pub record Summary : Type 0 where
  pub text : Bytes
  pub usage : Usage

pub record CompactConfig : Type 0 where
  pub keep_last : ℤ
  pub summarise : Option (List Message → Hook Summary)
  pub archive : Option (Session → Hook (Unit {0}))

pub record CompactResult : Type 0 where
  pub archive : Option Session
  pub usage : Usage
  pub dropped : ℕ

abbrev pub no_result : CompactResult
no_result = record { archive = none; usage = no_usage; dropped = 0 }

abbrev pub is_some {ℓ} : {A : Type ℓ} → Option A → Bool
is_some none = false
is_some (some a) = true

-- The roles that may not follow the summary, which is a message of the user.
unfoldable pub clashes : Role → Bool
clashes user = true
clashes tool = true
clashes _ = false

after_start : List Message → ℕ → ℕ
after_start h k = elim (get_elem? h k) [ none ↦ 0 | some m ↦ if clashes m.role then 0 else k ]

-- 0 means that there is nothing to compact.
split_from : List Message → Bool → Call (Option ℕ) → Call ℕ
unfolding after_start
split_from h summarising panic = panic
split_from h summarising (returns none) = returns 0
split_from h false (returns (some start)) = returns start
split_from h true (returns (some start)) = returns (after_start h (suc start))

unfoldable pub compact_split : List Message → ℤ → Bool → Call ℕ
unfolding split_from
compact_split h keep_last summarising = split_from h summarising (user_boundary h keep_last)

-- The function `summarise`: without a summariser the summary is empty, and a panic is an error.
caught : {A : Type 0} → Error → Hook A → Result A
caught e (gives a) = ok a
caught e (fails why) = err (hook_error why)
caught e panics = err e

unfoldable pub summarise : Option (List Message → Hook Summary) → List Message → Result Summary
unfolding caught
summarise none head = ok (record { text = []; usage = no_usage })
summarise (some f) head = caught summariser_panicked (f head)

unfoldable pub archive_with : Option (Session → Hook (Unit {0})) → Session → Result (Unit {0})
unfolding caught
archive_with none archive = ok tt
archive_with (some f) archive = caught archive_panicked (f archive)

-- Calls that other goroutines make on the session.
pub data Op : Type 0 where
  appends : List Message → ℕ → Op
  trims : ℤ → Op
  drops : ℤ → Op
  rolls_back : ℤ → ℕ → Op
  titles : Bytes → ℕ → Op
  sets : Bytes → Bytes → ℕ → Op
  deletes : Bytes → ℕ → Op
  bills : Usage → Op

-- A call that panics has written nothing before.
unpanicked : Session → Call Session → Session
unpanicked s panic = s
unpanicked s (returns t) = t

stored : Session → Option Session → Session
stored s none = s
stored s (some t) = t

unfoldable pub apply : Op → Session → Session
unfolding unpanicked stored
apply (appends ms now) s = append ms now s
apply (trims k) s = unpanicked s (trim k s)
apply (drops n) s = drop_before n s
apply (rolls_back base now) s = rollback base now s
apply (titles t now) s = set_title t now s
apply (sets k v now) s = stored s (set_state k (some v) now s)
apply (deletes k now) s = delete_state k now s
apply (bills u) s = add_usage u s

unfoldable pub apply_all : List Op → Session → Session
apply_all [] s = s
apply_all (o ∷ os) s = apply_all os (apply o s)

-- The copy that is handed to the archive hook, under a fresh id.
unfoldable pub archive_of : Bytes → ℕ → Session → Session
archive_of random now s = record {
  id = random;
  parent = s.parent;
  title = s.title;
  created = s.created;
  updated = now;
  rev = 0;
  history = s.history;
  state = s.state;
  usage = s.usage;
  running = false;
}

summary_prefix : Bytes
summary_prefix = codes "Summary of the earlier conversation:" ++ 10 ∷ 10 ∷ []

-- The message that stands for the dropped head, if there is a summariser.
unfoldable pub kept_for : Bool → Summary → List Message
unfolding summary_prefix
kept_for false sum = []
kept_for true sum = user_text (summary_prefix ++ sum.text) ∷ []

-- The second critical section: `k`, `rev0` and the archive come from the first.
unfoldable pub commit :
    CompactConfig → ℕ → ℕ → Session → Summary → ℕ → Session → Call (Result CompactResult × Session)
unfolding kept_for
commit cfg k rev0 archive sum later s =
    if s.rev == rev0
    then (if leb k (length s.history)
        then returns (
          ok (record { archive = some archive; usage = sum.usage; dropped = k }),
          record s {
            history = kept_for (is_some cfg.summarise) sum ++ drop k s.history;
            parent = archive.id;
            updated = later;
            rev = next_rev s.rev;
          },
        )
        else panic)
    else returns (err session_changed, s)

-- Between the two sections, after which `s` is the session as `meanwhile` left it.
finish_compact :
    CompactConfig
    → ℕ
    → ℕ
    → Session
    → List Message
    → ℕ
    → Session
    → Call (Result CompactResult × Session)
unfolding commit
finish_compact cfg k rev0 archive head later s = elim (summarise cfg.summarise head) [
  | err e ↦ returns (err e, s)
  | ok sum ↦ elim (archive_with cfg.archive archive) [
    | err e ↦ returns (err e, s)
    | ok _ ↦ commit cfg k rev0 archive sum later s
  ]
]

compact_at :
    CompactConfig
    → Bytes
    → ℕ
    → List Op
    → ℕ
    → Session
    → Call ℕ
    → Call (Result CompactResult × Session)
unfolding finish_compact
compact_at cfg random now meanwhile later s panic = panic
compact_at cfg random now meanwhile later s (returns zero) = returns (ok no_result, s)
compact_at cfg random now meanwhile later s (returns (suc k)) =
    finish_compact cfg (suc k) s.rev (archive_of random now s) (take (suc k) s.history) later
      (apply_all meanwhile s)

-- `Session.Compact`.
unfoldable pub compact :
    CompactConfig → Bytes → ℕ → List Op → ℕ → Session → Call (Result CompactResult × Session)
unfolding compact_at
compact cfg random now meanwhile later s =
    compact_at cfg random now meanwhile later s
      (compact_split s.history cfg.keep_last (is_some cfg.summarise))
