-- ===== src/Router/Matching.antt =====
-- router.go: what it means for a rule to take a turn, and that `matches` decides it.
use golm.Common.{
  ◌≡◌, ℕ, refl, sym, ap, subst, ◌∙◌, ◌↔◌, ◌⊎◌, inl, inr, Bool, true, false, Bool-cases, Option,
  none, some, List, [], ◌∷◌, ◌++◌, Bytes, arith, is_empty,
}
use golm.Router.{
  Texts, RouteRule, has_prefix, has_text, all_in, any_in, re_matches, prefix_matches, any_matches,
  matches,
}

abbrev pub StartsWith : Bytes → Bytes → Type 0
StartsWith p s = (rest : Bytes) × (s ≡ p ++ rest)

abbrev pub Occurs : Bytes → Bytes → Type 0
Occurs p s = (before : Bytes) × (after : Bytes) × (s ≡ before ++ p ++ after)

abbrev pub Each : {A : Type 0} → (A → Type 0) → List A → Type 0
Each P [] = Unit {0}
Each P (a ∷ as') = P a × Each P as'

abbrev pub Some : {A : Type 0} → (A → Type 0) → List A → Type 0
Some P [] = ⊥
Some P (a ∷ as') = P a ⊎ Some P as'

-- A pattern that is set already, as on a rule that was compiled before.
abbrev pub Admits : Option (Bytes → Bool) → Bytes → Type 0
Admits none text = Unit {0}
Admits (some re) text = re text ≡ true

-- What a rule's pattern, or one that was compiled before, asks of the text.
abbrev pub PatternAdmits : Texts → Bytes → RouteRule → Type 0
PatternAdmits tx text r =
    ((r.pattern ≡ []) × Admits r.re text)
    ⊎ ((is_empty r.pattern ≡ false)
        × (re : Bytes → Bool) × (tx.compile r.pattern ≡ some re)
        × (re text ≡ true))

-- A rule takes a turn when each condition that it has holds of the text.
pub record Takes (tx : Texts) (text : Bytes) (r : RouteRule) : Type 0 where
  pub starts : (r.prefix ≡ []) ⊎ StartsWith (tx.lower r.prefix) (tx.lower text)
  pub admits : PatternAdmits tx text r
  pub has_all : Each (λ w. Occurs (tx.lower w) (tx.lower text)) r.all
  pub has_any : (r.any ≡ []) ⊎ Some (λ w. Occurs (tx.lower w) (tx.lower text)) r.any

has_prefix_iff : (s p : Bytes) → (has_prefix s p ≡ true) ↔ StartsWith p s
unfolding has_prefix
has_prefix_iff s [] = (λ _. (s, refl), λ _. refl)
has_prefix_iff [] (b ∷ p) = (λ e. cc, λ h. cc)
has_prefix_iff (a ∷ s) (b ∷ p) = (
  λ h.
      let e : a ≡ b = ground (arith, h) in
      let (rest, q) = (has_prefix_iff s p).0 (ground (arith, h)) in
      (rest, ap (λ x. x ∷ s) e ∙ ap (◌∷◌ b) q),
  λ h.
      let e : a ≡ b = let z = h.1 in cc in
      let q : s ≡ p ++ h.0 = let z = h.1 in cc in
      let w = (has_prefix_iff s p).1 (h.0, q) in ground (arith, e, w),
)

has_text_found :
    (a : ℕ) (s p : Bytes)
    → (Occurs p s → has_text s p ≡ true)
    → (before after : Bytes) → a ∷ s ≡ before ++ p ++ after
    → has_text (a ∷ s) p ≡ true
unfolding has_text
has_text_found a s p f [] after e = let w = (has_prefix_iff (a ∷ s) p).1 (after, e) in rw w refl
has_text_found a s p f (b ∷ before) after e =
    let q : s ≡ before ++ p ++ after = cc in
    let w = f (before, after, q) in
    elim (Bool-cases (has_prefix (a ∷ s) p)) [ inl y ↦ rw y refl | inr n ↦ rw n w ]

has_text_iff : (s p : Bytes) → (has_text s p ≡ true) ↔ Occurs p s
unfolding has_text
has_text_iff [] p =
    (λ h. let (rest, e) = (has_prefix_iff [] p).0 h in ([], rest, e), λ h. go h.0 h.1 h.2)
  where
    go : (before after : Bytes) → [] ≡ before ++ p ++ after → has_prefix [] p ≡ true
    go [] after e = (has_prefix_iff [] p).1 (after, e)
    go (b ∷ before) after e = cc
has_text_iff (a ∷ s) p = (
  λ h. elim (Bool-cases (has_prefix (a ∷ s) p)) [
    | inl y ↦ let (rest, e) = (has_prefix_iff (a ∷ s) p).0 y in ([], rest, e)
    | inr n ↦
        let (before, after, e) = (has_text_iff s p).0 (rw n at h) in
        (a ∷ before, after, ap (◌∷◌ a) e)
  ],
  λ h. has_text_found a s p (has_text_iff s p).1 h.0 h.1 h.2,
)

all_in_iff :
    (tx : Texts) (text : Bytes) (ws : List Bytes)
    → (all_in tx text ws ≡ true) ↔ Each (λ w. Occurs (tx.lower w) text) ws
unfolding all_in
all_in_iff tx text [] = (λ _. tt, λ _. refl)
all_in_iff tx text (w ∷ ws) =
    let here = has_text_iff text (tx.lower w) in
    let rest = all_in_iff tx text ws in
    elim (Bool-cases (has_text text (tx.lower w))) [
      | inl e ↦ rw e (λ h. (here.0 e, rest.0 h), λ h. rest.1 h.1)
      | inr e ↦ rw e (λ h. cc, λ h. let z = here.1 h.0 in cc)
    ]

any_in_iff :
    (tx : Texts) (text : Bytes) (ws : List Bytes)
    → (any_in tx text ws ≡ true) ↔ Some (λ w. Occurs (tx.lower w) text) ws
unfolding any_in
any_in_iff tx text [] = (λ e. cc, λ h. absurd h)
any_in_iff tx text (w ∷ ws) =
    let here = has_text_iff text (tx.lower w) in
    let rest = any_in_iff tx text ws in
    elim (Bool-cases (has_text text (tx.lower w))) [
      | inl e ↦ rw e (λ h. inl (here.0 e), λ h. refl)
      | inr e ↦ rw e (
        λ h. inr (rest.0 h),
        λ h. elim h [ inl o ↦ absurd (let z = here.1 o in cc) | inr o ↦ rest.1 o ],
      )
    ]

prefix_matches_iff :
    (tx : Texts) (p lowered : Bytes)
    → (prefix_matches tx p lowered ≡ true) ↔ ((p ≡ []) ⊎ StartsWith (tx.lower p) lowered)
unfolding prefix_matches
prefix_matches_iff tx [] lowered = (λ _. inl refl, λ _. refl)
prefix_matches_iff tx (b ∷ p) lowered =
    let i = has_prefix_iff lowered (tx.lower (b ∷ p)) in
    (λ h. inr (i.0 h), λ h. elim h [ inl e ↦ cc | inr o ↦ i.1 o ])

re_matches_iff :
    (re : Option (Bytes → Bool)) (text : Bytes) → (re_matches re text ≡ true) ↔ Admits re text
unfolding re_matches
re_matches_iff none text = (λ _. tt, λ _. refl)
re_matches_iff (some re) text = (λ h. h, λ h. h)

any_matches_iff :
    (tx : Texts) (ws : List Bytes) (lowered : Bytes)
    → (any_matches tx ws lowered ≡ true) ↔ ((ws ≡ []) ⊎ Some (λ w. Occurs (tx.lower w) lowered) ws)
unfolding any_matches
any_matches_iff tx [] lowered = (λ _. inl refl, λ _. refl)
any_matches_iff tx (w ∷ ws) lowered =
    let i = any_in_iff tx lowered (w ∷ ws) in
    (λ h. inr (i.0 h), λ h. elim h [ inl e ↦ cc | inr o ↦ i.1 o ])

-- The rule as `RouteRules` compiles it.
abbrev pub CompiledRule : Texts → RouteRule → RouteRule → Type 0
CompiledRule tx r c =
    ((r.pattern ≡ []) × (c ≡ r))
    ⊎ ((is_empty r.pattern ≡ false)
        × (re : Bytes → Bool) × (tx.compile r.pattern ≡ some re)
        × (c ≡ record r { re = some re }))

-- What `matches` asks of a rule, part by part.
record Passes (tx : Texts) (text : Bytes) (c : RouteRule) : Type 0 where
  first : prefix_matches tx c.prefix (tx.lower text) ≡ true
  second : re_matches c.re text ≡ true
  third : all_in tx (tx.lower text) c.all ≡ true
  last : any_matches tx c.any (tx.lower text) ≡ true

matches_iff :
    (tx : Texts) (text : Bytes) (c : RouteRule)
    → (matches tx c text (tx.lower text) ≡ true) ↔ Passes tx text c
unfolding matches
matches_iff tx text c = (
  λ h. record {
    first = ground (arith, h);
    second = ground (arith, h);
    third = ground (arith, h);
    last = ground (arith, h);
  },
  λ v. rw v.first (rw v.second (rw v.third v.last)),
)

matches_with :
    (tx : Texts) (text : Bytes) (r : RouteRule) (re : Option (Bytes → Bool))
    → (Admits re text ↔ PatternAdmits tx text r)
    → (matches tx (record r { re = re }) text (tx.lower text) ≡ true) ↔ Takes tx text r
matches_with tx text r re i =
    let m = matches_iff tx text (record r { re = re }) in
    let a = prefix_matches_iff tx r.prefix (tx.lower text) in
    let b = re_matches_iff re text in
    let c = all_in_iff tx (tx.lower text) r.all in
    let d = any_matches_iff tx r.any (tx.lower text) in
    (
      λ h.
          let v = m.0 h in
          record {
            starts = a.0 v.first;
            admits = i.0 (b.0 v.second);
            has_all = c.0 v.third;
            has_any = d.0 v.last;
          },
      λ t. m.1 (record {
        first = a.1 t.starts;
        second = b.1 (i.1 t.admits);
        third = c.1 t.has_all;
        last = d.1 t.has_any;
      }),
    )

-- The compiled rule matches a text exactly when the rule that it was compiled from takes the turn.
pub matches-Takes :
    (tx : Texts) (text : Bytes) (r c : RouteRule)
    → CompiledRule tx r c
    → (matches tx c text (tx.lower text) ≡ true) ↔ Takes tx text r
matches-Takes tx text r c (inl (e, same)) =
    subst (λ c'. (matches tx c' text (tx.lower text) ≡ true) ↔ Takes tx text r) (sym same)
      (matches_with tx text r r.re (
        λ h. inl (e, h),
        λ h. elim h [ inl (_, k) ↦ k | inr (n, _, _, _) ↦ let z = rw e at n in cc ],
      ))
matches-Takes tx text r c (inr (e, re, q, same)) =
    subst (λ c'. (matches tx c' text (tx.lower text) ≡ true) ↔ Takes tx text r) (sym same)
      (matches_with tx text r (some re) (
        λ h. inr (e, re, q, h),
        λ h. elim h [
          | inl (n, _) ↦ let z = rw n at e in cc
          | inr (_, re', q', k) ↦
              let same_re : re' ≡ re = cc in subst (λ f. f text ≡ true) same_re k
        ],
      ))
