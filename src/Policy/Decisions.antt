-- ===== src/Policy/Decisions.antt =====
-- policyrules.go: what the rules let run.
use golm.Common.{
  ◌≡◌, refl, ◌⊎◌, inl, inr, ◌≢◌, ◌↔◌, true, false, Option, none, some, Bytes, contains, arith,
}
use golm.Policy.{
  PolicyRules, ToolTraits, Decision, allow, deny, ask, unset, other, Why, Approval, approves,
  refuses, fails, panics, Waiting, served, over_before, over_waiting, any_trait, by_traits, decide,
  resolve, put_to, asked, answered, policy,
}

-- The ways in which the rules allow a call without a question.
abbrev pub Allowed : PolicyRules → Bytes → Option ToolTraits → Type 0
Allowed p name traits = (decide p name traits).0 ≡ allow

abbrev pub Asks : PolicyRules → Bytes → Option ToolTraits → Type 0
Asks p name traits = (decide p name traits).0 ≡ ask

resolve_runs :
    (approver : Option Approval) (w : Waiting) (d : Decision) (why : Why)
    → (resolve approver w (d, why) ≡ none)
      ↔ ((d ≡ allow) ⊎ ((d ≡ ask) × (approver ≡ some approves) × (w ≡ served)))
unfolding resolve put_to asked answered
resolve_runs approver w allow why = (λ _. inl refl, λ _. refl)
resolve_runs approver w deny why = (λ e. cc, λ h. ground arith)
resolve_runs approver w unset why = (λ e. cc, λ h. ground arith)
resolve_runs approver w (other d) why = (λ e. cc, λ h. ground arith)
resolve_runs none w ask why = (λ e. cc, λ h. ground arith)
resolve_runs (some approves) served ask why = (λ _. inr (refl, refl, refl), λ _. refl)
resolve_runs (some approves) (over_before e) ask why = (λ q. cc, λ h. ground arith)
resolve_runs (some approves) (over_waiting e) ask why = (λ q. cc, λ h. ground arith)
resolve_runs (some refuses) served ask why = (λ q. cc, λ h. ground arith)
resolve_runs (some refuses) (over_before e) ask why = (λ q. cc, λ h. ground arith)
resolve_runs (some refuses) (over_waiting e) ask why = (λ q. cc, λ h. ground arith)
resolve_runs (some (fails x)) served ask why = (λ q. cc, λ h. ground arith)
resolve_runs (some (fails x)) (over_before e) ask why = (λ q. cc, λ h. ground arith)
resolve_runs (some (fails x)) (over_waiting e) ask why = (λ q. cc, λ h. ground arith)
resolve_runs (some (panics x)) served ask why = (λ q. cc, λ h. ground arith)
resolve_runs (some (panics x)) (over_before e) ask why = (λ q. cc, λ h. ground arith)
resolve_runs (some (panics x)) (over_waiting e) ask why = (λ q. cc, λ h. ground arith)

-- Under rules p a call runs exactly when the rules allow it, or when they ask, there is an approver
-- that approves, and the context is alive to be asked in. A refusal, an approver's error or panic, a
-- missing approver, a context that is over and a decision that is not a known word all refuse it.
pub policy_runs :
    (p : PolicyRules) (approver : Option Approval) (w : Waiting) (name : Bytes)
    (traits : Option ToolTraits)
    → (policy (some p) approver w name traits ≡ none)
      ↔ (Allowed p name traits ⊎ (Asks p name traits × (approver ≡ some approves) × (w ≡ served)))
unfolding policy
policy_runs p approver w name traits =
    let (d, why) = decide p name traits in resolve_runs approver w d why

-- A tool that declares a denied trait runs only where the lists of names allow it or have it asked
-- about: without its name on either list, no approver and no state of the context lets it run.
pub denied_trait_refuses :
    (p : PolicyRules) (approver : Option Approval) (w : Waiting) (name : Bytes) (tr : ToolTraits)
    (trait : any_trait tr p.deny_traits ≡ true) (unlisted : contains p.allow_names name ≡ false)
    (unasked : contains p.ask_names name ≡ false)
    → policy (some p) approver w name (some tr) ≢ none
unfolding policy decide resolve by_traits
denied_trait_refuses p approver w name tr trait unlisted unasked q = ground arith
