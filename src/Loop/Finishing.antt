-- ===== src/Loop/Finishing.antt =====
-- agent.go: `finish`, which trims or compacts the transcript after a run.
use golm.Common.{
  ℕ, zero, suc, ◌<◌, ◌≡◌, refl, sym, ap, subst, ◌∙◌, inl, inr, Bool, true, false, Bool-cases,
  Option, none, some, Option-cases, List, [], ◌∷◌, ◌++◌, append-nil, arith, Bytes, length,
  length-append, drop, get_elem?, ℤ, pos, negsuc, int_mod,
}
use golm.Content.{Role, user, tool}
use golm.Message.{Message, tool_uses, user_text, uses}
use golm.History.{Call, returns, is_user_role}
use golm.History.Laws.{user_at, Boundary}
use golm.Session.{Session, add_usage}
use golm.Session.Trimming.{cut_at, trim-Boundary}
use golm.Session.Steps.{Extends}
use golm.Compaction.{
  CompactConfig, CompactResult, Op, compact, is_some, kept_for, clashes, apply_all, Summary,
}
use golm.Compaction
use golm.Compaction.Split.{Splits}
use golm.Compaction.Outcome.{Replaced, Outcome, compact-Outcome}
use golm.Tools.{Printer}
use golm.Agent.{Agent, Env, CompactPolicy}
use golm.Loop.{
  Run, emit, compaction_due, finish, finish_with, trim_after, compact_after, compacted, trimmed,
  compact_error,
}
use golm.Loop.Paired.{Paired, is_tool_role, NoAnswerFirst, Paired-drop, Paired-append}

user-no_tool : (r : Role) → is_user_role r ≡ true → is_tool_role r ≡ false
user-no_tool user e = refl
user-no_tool Role.system e = refl
user-no_tool Role.assistant e = refl
user-no_tool tool e = cc
user-no_tool (Role.other b) e = refl

calm-no_tool : (r : Role) → clashes r ≡ false → is_tool_role r ≡ false
unfolding clashes
calm-no_tool user e = refl
calm-no_tool Role.system e = refl
calm-no_tool Role.assistant e = refl
calm-no_tool tool e = cc
calm-no_tool (Role.other b) e = refl

pub user_at-NoAnswerFirst :
    (n : ℕ) (h : List Message) → user_at h n ≡ true → NoAnswerFirst (drop n h)
user_at-NoAnswerFirst zero [] u = tt
user_at-NoAnswerFirst zero (m ∷ h) u = user-no_tool m.role u
user_at-NoAnswerFirst (suc n) [] u = tt
user_at-NoAnswerFirst (suc n) (m ∷ h) u = user_at-NoAnswerFirst n h u

calm-NoAnswerFirst :
    (n : ℕ) (h : List Message)
    → ((m : Message) → get_elem? h n ≡ some m → clashes m.role ≡ false)
    → NoAnswerFirst (drop n h)
calm-NoAnswerFirst zero [] c = tt
calm-NoAnswerFirst zero (m ∷ h) c = calm-no_tool m.role (c m refl)
calm-NoAnswerFirst (suc n) [] c = tt
calm-NoAnswerFirst (suc n) (m ∷ h) c = calm-NoAnswerFirst n h c

Splits-NoAnswerFirst :
    (h : List Message) (b : Bool) (n : ℕ) → 0 < n → Splits h b n → NoAnswerFirst (drop n h)
Splits-NoAnswerFirst h b zero z s = absurd (omega arith)
Splits-NoAnswerFirst h false (suc n) z s = user_at-NoAnswerFirst (suc n) h s.1
Splits-NoAnswerFirst h true (suc n) z s = calm-NoAnswerFirst (suc n) h s.2

kept_for-Paired : (b : Bool) (sum : Summary) → Paired (kept_for b sum)
unfolding kept_for user_text tool_uses uses
kept_for-Paired false sum = tt
kept_for-Paired true sum = (refl, refl)

nothing_appended : (h k : List Message) → h ≡ h ++ k → k ≡ []
nothing_appended h [] e = refl
nothing_appended h (m ∷ k) e = absurd (omega (arith, ap length e, length-append h (m ∷ k)))

Replaced-Paired :
    (cfg : CompactConfig) (random : Bytes) (now later : ℕ) (s t : Session) (r : CompactResult)
    → Paired s.history
    → 0 < r.dropped
    → Replaced cfg random now [] later s r t
    → Paired t.history
unfolding apply_all
Replaced-Paired cfg random now later s t r ps z re =
    let x : Extends s (apply_all [] s) = re.appended_eq in
    let e : x.appended ≡ [] = nothing_appended s.history x.appended (same x) in
    let tail : Paired (drop r.dropped s.history) =
      Paired-drop r.dropped s.history ps
        (Splits-NoAnswerFirst s.history (is_some cfg.summarise) r.dropped z re.split) in
    subst Paired
      (sym (
        re.history_eq
        ∙ ap (λ k. kept_for (is_some cfg.summarise) re.summary ++ k)
            (ap (λ k. drop r.dropped s.history ++ k) e ∙ append-nil (drop r.dropped s.history))))
      (Paired-append (kept_for (is_some cfg.summarise) re.summary) (drop r.dropped s.history)
        (kept_for-Paired (is_some cfg.summarise) re.summary) tail)
  where
    same : (x : Extends s (apply_all [] s)) → s.history ≡ s.history ++ x.appended
    same x = x.history_eq

-- A compaction that keeps nothing is a panic, which a configuration file cannot ask for.
abbrev pub KeepsSome : Option CompactPolicy → Type 0
KeepsSome none = Unit {0}
KeepsSome (some c) = (k : ℕ) × (c.config.keep_last ≡ pos (suc k))

cut_at-Paired :
    (s : Session) (k : ℕ) (o : Option ℕ)
    → Boundary s.history k o
    → Paired s.history
    → Paired (cut_at s o).history
cut_at-Paired s k none b ps = ps
cut_at-Paired s k (some n) b ps =
    Paired-drop n s.history ps (user_at-NoAnswerFirst n s.history b.user_there)

module _ {W : Type 0} (p : Printer) (env : Env W) (a : Agent)
    (alone : (w : W) → (env.meanwhile w).0 ≡ []) where
  -- A step that ends, and leaves the pairs.
  abbrev pub Ends : Call (Run W) → Type 0
  Ends c = (r : Run W) × (c ≡ returns r) × Paired r.session.history

  trim_after-Ends : (n : ℤ) (r : Run W) → Paired r.session.history → Ends (trim_after p env a n r)
  unfolding trim_after trimmed
  trim_after-Ends (pos zero) r ps = (r, refl, ps)
  trim_after-Ends (negsuc n) r ps = (r, refl, ps)
  trim_after-Ends (pos (suc n)) r ps =
      let (o, e, b) = trim-Boundary r.session n in
      (record r { session = cut_at r.session o }, rw e, cut_at-Paired r.session (suc n) o b ps)

  compacted-Ends :
      (cfg : CompactConfig) (random : Bytes) (now later : ℕ) (r : Run W)
      (res : Compaction.Result CompactResult) (t : Session)
      → Paired r.session.history
      → Outcome cfg random now [] later r.session res t
      → Ends (compacted p env a r (returns (res, t)))
  unfolding compacted compact_error emit add_usage apply_all
  compacted-Ends cfg random now later r (Compaction.err e) t ps o =
      (_, refl, subst (λ s. Paired s.history) (sym o) ps)
  compacted-Ends cfg random now later r (Compaction.ok out) t ps (inl (e, same)) =
      (_, refl, subst (λ s. Paired s.history) (sym same) ps)
  compacted-Ends cfg random now later r (Compaction.ok out) t ps (inr (z, re)) =
      (_, refl, Replaced-Paired cfg random now later r.session t out ps z re)

  compact_after-Ends :
      (c : CompactPolicy) (k : ℕ) (r : Run W)
      → c.config.keep_last ≡ pos (suc k)
      → r.session.rev < int_mod
      → Paired r.session.history
      → Ends (compact_after p env a c r)
  unfolding compact_after
  compact_after-Ends c k r q l ps = elim (Option-cases (env.ctx_err r.world).0) [
    | inr (e, x) ↦ rw (x, compact_after) (_, refl, ps)
    | inl x ↦ rw (x, compact_after) (go ((env.ctx_err r.world).1))
  ]
    where
      go :
          (w : W)
          → Ends (
              compacted p env a
                (record r { world = (env.meanwhile w).1 })
                (compact c.config
                  (env.random w)
                  (env.clock w)
                  (env.meanwhile w).0
                  (env.clock (env.meanwhile w).1)
                  r.session))
      go w =
          let later = env.clock (env.meanwhile w).1 in
          let (res, t, e, o) =
            compact-Outcome c.config (env.random w) (env.clock w) [] later r.session k q l
              (omega arith) in
          rw (alone w) (
            rw e (
              compacted-Ends c.config (env.random w) (env.clock w) later
                (record r { world = (env.meanwhile w).1 }) res t ps o))

  finish_with-Ends :
      (o : Option CompactPolicy) (r : Run W)
      → KeepsSome o
      → r.session.rev < int_mod
      → Paired r.session.history
      → Ends (finish_with p env a o r)
  unfolding finish_with
  finish_with-Ends none r ks l ps = trim_after-Ends a.keep_last r ps
  finish_with-Ends (some c) r (k, q) l ps =
      elim (Bool-cases (compaction_due c r.session r.result)) [
        | inl d ↦ rw d (compact_after-Ends c k r q l ps)
        | inr d ↦ rw d (r, refl, ps)
      ]

  pub finish-Ends :
      (r : Run W)
      → KeepsSome a.compaction
      → r.session.rev < int_mod
      → Paired r.session.history
      → Ends (finish p env a r)
  unfolding finish
  finish-Ends r ks l ps = finish_with-Ends a.compaction r ks l ps
