-- ===== src/Router/Rules.antt =====
-- router.go: what a router of rules chooses.
use golm.Common.{
  ℕ, suc, ◌≡◌, refl, sym, ap, subst, ◌∙◌, inl, inr, true, false, Bool-cases, Option-cases, some,
  List, [], ◌∷◌, ◌++◌, Bytes, if_true, if_false, is_empty,
}
use golm.Message.{message_text}
use golm.Router.{
  Texts, RouteInput, Route, routes, no_route, RouteRule, has_condition, kept_rule, compile_pattern,
  Compiled, compiles, names_no_agent, bad_pattern, no_condition, compile_rules, matches, reason_of,
  first_match, rules_router,
}
use golm.Router.Matching.{Each, Takes, CompiledRule, matches-Takes}

-- The route of the first rule that takes the turn, or none where no rule does.
pub data Chosen (tx : Texts) (text : Bytes) : List RouteRule → Route → Type 0 where
  chooses :
      (before : List RouteRule) (r : RouteRule) (after : List RouteRule)
      → Each (λ q. ¬ Takes tx text q) before
      → Takes tx text r
      → {rules : List RouteRule} → rules ≡ before ++ r ∷ after
      → Chosen tx text rules (record { agent = r.agent; reason = reason_of r })
  chooses_none :
      {rules : List RouteRule} → Each (λ q. ¬ Takes tx text q) rules → Chosen tx text rules no_route

later :
    (tx : Texts) (text : Bytes) (q : RouteRule) {rules : List RouteRule} {route : Route}
    → ¬ Takes tx text q
    → Chosen tx text rules route
    → Chosen tx text (q ∷ rules) route
later tx text q n (chooses before r after a m e) =
    chooses (q ∷ before) r after (n, a) m (ap (◌∷◌ q) e)
later tx text q n (chooses_none a) = chooses_none (n, a)

-- A rule that can be used, and what it is compiled to.
pub record Kept (tx : Texts) (r c : RouteRule) : Type 0 where
  pub named : is_empty (tx.trim r.agent) ≡ false
  pub condition : ¬ ((r.any ≡ []) × (r.all ≡ []) × (r.prefix ≡ []) × (r.pattern ≡ []))
  pub compiled : CompiledRule tx r c

abbrev pub AllKept : Texts → List RouteRule → List RouteRule → Type 0
AllKept tx [] [] = Unit {0}
AllKept tx [] (c ∷ cs) = ⊥
AllKept tx (r ∷ rs) [] = ⊥
AllKept tx (r ∷ rs) (c ∷ cs) = Kept tx r c × AllKept tx rs cs

same_reason : (tx : Texts) (r c : RouteRule) → CompiledRule tx r c → reason_of c ≡ reason_of r
unfolding reason_of
same_reason tx r c (inl (e, same)) = ap reason_of same
same_reason tx r c (inr (e, re, q, same)) = ap reason_of same

same_agent : (tx : Texts) (r c : RouteRule) → CompiledRule tx r c → c.agent ≡ r.agent
same_agent tx r c (inl (e, same)) = ap (λ (x : RouteRule). x.agent) same
same_agent tx r c (inr (e, re, q, same)) = ap (λ (x : RouteRule). x.agent) same

same_route :
    (tx : Texts) (r c : RouteRule)
    → CompiledRule tx r c
    → ◌≡◌ {A = Route}
        (record { agent = r.agent; reason = reason_of r })
        (record { agent = c.agent; reason = reason_of c })
same_route tx r c k = let e = same_agent tx r c k in let f = same_reason tx r c k in cc

first_match-Chosen :
    (tx : Texts) (text : Bytes) (rules compiled : List RouteRule)
    → AllKept tx rules compiled
    → Chosen tx text rules (first_match tx compiled text (tx.lower text))
unfolding first_match
first_match-Chosen tx text [] [] k = chooses_none tt
first_match-Chosen tx text [] (c ∷ cs) k = absurd k
first_match-Chosen tx text (r ∷ rs) [] k = absurd k
first_match-Chosen tx text (r ∷ rs) (c ∷ cs) k =
    let i = matches-Takes tx text r c (k.0).compiled in
    elim (Bool-cases (matches tx c text (tx.lower text))) [
      | inl m ↦ rw m (
          subst (Chosen tx text (r ∷ rs)) (same_route tx r c (k.0).compiled)
            (chooses [] r rs tt (i.0 m) refl))
      | inr n ↦
          rw n (later tx text r (λ t. let y = i.1 t in cc) (first_match-Chosen tx text rs cs k.1))
    ]

some_condition :
    (r : RouteRule)
    → has_condition r ≡ true
    → ¬ ((r.any ≡ []) × (r.all ≡ []) × (r.prefix ≡ []) × (r.pattern ≡ []))
unfolding has_condition
some_condition r c (a, b, p, q) = let z = rw (a, b, p, q) at c in cc

is_empty_nil : (s : Bytes) → is_empty s ≡ true → s ≡ []
is_empty_nil [] e = refl
is_empty_nil (b ∷ s) e = cc

kept_rule-compiles :
    (i : ℕ) (r : RouteRule) (rest : Compiled) (rs : List RouteRule)
    → kept_rule i r rest ≡ compiles rs
    → (has_condition r ≡ true) × (tail : List RouteRule) × (rest ≡ compiles tail) × (rs ≡ r ∷ tail)
unfolding kept_rule
kept_rule-compiles i r (compiles tail) rs e = elim (Bool-cases (has_condition r)) [
  | inl h ↦ let q = sym (if_true h _ _) ∙ e in (h, tail, refl, cc)
  | inr h ↦ let q = sym (if_false h _ _) ∙ e in cc
]
kept_rule-compiles i r (names_no_agent j) rs e = elim (Bool-cases (has_condition r)) [
  | inl h ↦ let q = sym (if_true h _ _) ∙ e in cc
  | inr h ↦ let q = sym (if_false h _ _) ∙ e in cc
]
kept_rule-compiles i r (bad_pattern j) rs e = elim (Bool-cases (has_condition r)) [
  | inl h ↦ let q = sym (if_true h _ _) ∙ e in cc
  | inr h ↦ let q = sym (if_false h _ _) ∙ e in cc
]
kept_rule-compiles i r (no_condition j) rs e = elim (Bool-cases (has_condition r)) [
  | inl h ↦ let q = sym (if_true h _ _) ∙ e in cc
  | inr h ↦ let q = sym (if_false h _ _) ∙ e in cc
]

-- The rule of `r` among the compiled ones.
compile_pattern-compiles :
    (tx : Texts) (i : ℕ) (r : RouteRule) (rest : Compiled) (rs : List RouteRule)
    → compile_pattern tx i r rest ≡ compiles rs
    → (c : RouteRule) × (has_condition r ≡ true)
      × CompiledRule tx r c
      × (tail : List RouteRule) × (rest ≡ compiles tail)
      × (rs ≡ c ∷ tail)
unfolding compile_pattern has_condition
compile_pattern-compiles tx i r rest rs e = elim (Bool-cases (is_empty r.pattern)) [
  | inl h ↦
      let (c, tail, f, g) = kept_rule-compiles i r rest rs (sym (if_true h _ _) ∙ e) in
      (r, c, inl (is_empty_nil r.pattern h, refl), tail, f, g)
  | inr h ↦
      let q = sym (if_false h _ _) ∙ e in
      elim (Option-cases (tx.compile r.pattern)) [
        | inl n ↦ let w = rw n at q in cc
        | inr (re, n) ↦
            let r' = record r { re = some re } in
            let (c, tail, f, g) = kept_rule-compiles i r' rest rs (rw n at q) in
            (r', c, inr (h, re, n, refl), tail, f, g)
      ]
]

compile_rules-AllKept :
    (tx : Texts) (i : ℕ) (rules rs : List RouteRule)
    → compile_rules tx i rules ≡ compiles rs
    → AllKept tx rules rs
unfolding compile_rules
compile_rules-AllKept tx i [] rs e = let q : [] ≡ rs = cc in subst (AllKept tx []) q tt
compile_rules-AllKept tx i (r ∷ rules) rs e = elim (Bool-cases (is_empty (tx.trim r.agent))) [
  | inl h ↦ let q = sym (if_true h _ _) ∙ e in cc
  | inr h ↦
      let (r', c, k, tail, f, g) =
        compile_pattern-compiles tx i r (compile_rules tx (suc i) rules) rs
          (sym (if_false h _ _) ∙ e) in
      subst (AllKept tx (r ∷ rules)) (sym g) (
        record { named = h; condition = some_condition r c; compiled = k },
        compile_rules-AllKept tx (suc i) rules tail f,
      )
]

-- Rules that compile are kept one by one and in order: each names an agent and has a condition, and
-- stays as it is but for its pattern, which is compiled. The router of them names, with its reason,
-- the agent of the first of the rules as they were given that takes the turn, and none where none
-- does. A rule takes a turn when the text, without regard to case, starts with its prefix, its
-- pattern matches the text, the text contains all that it lists under `All` and one that it lists
-- under `Any`, as far as it has these.
pub compile_rules-Chosen :
    (tx : Texts) (rules compiled : List RouteRule) (i : RouteInput)
    → compile_rules tx 0 rules ≡ compiles compiled
    → AllKept tx rules compiled
      × (route : Route) × (rules_router tx compiled i ≡ routes route)
      × Chosen tx (message_text i.message) rules route
unfolding rules_router
compile_rules-Chosen tx rules compiled i e =
    let text = message_text i.message in
    let kept = compile_rules-AllKept tx 0 rules compiled e in
    (
      kept,
      first_match tx compiled text (tx.lower text),
      refl,
      first_match-Chosen tx text rules compiled kept,
    )
