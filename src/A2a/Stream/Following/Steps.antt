-- ===== src/A2a/Stream/Following/Steps.antt =====
-- a2a/taskstore.go: a subscription of a broker, through each operation that reads no channel.
use golm.Common.{
  ℕ, suc, ◌<◌, ◌≡◌, refl, sym, ap, subst, ◌∙◌, inl, inr, true, false, Bool-cases, List, [], ◌∷◌,
  ◌++◌, append_assoc, append-nil, arith, ◌==◌, if_split, if_true, if_false,
}
use golm.A2a.Stream.{
  TaskEvent, Sub, Broker, write_sub, has_room, offer, publish, close_subs, close, subscribe, mem,
  remove, unsubscribe,
}
use golm.A2a.Stream.Following.Offers.{
  write_same, write_other, Once, Once-absent, offer_all-Skipped, offer_all-Offered,
}

-- A channel that is still served holds all that was published and not yet read; one that was taken
-- out is closed, and holds the start of it.
pub record Live (log seen : List TaskEvent) (x : Sub) : Type 0 where
  pub opened : x.is_open ≡ true
  pub whole : log ≡ seen ++ x.queue

pub record Gone (log seen : List TaskEvent) (x : Sub) : Type 0 where
  pub shut : x.is_open ≡ false
  pub rest : List TaskEvent
  pub start : log ≡ (seen ++ x.queue) ++ rest

pub record Follows (i : ℕ) (log seen : List TaskEvent) (b : Broker) : Type 0 where
  pub made : i < b.next_id
  pub once : Once i b.subs
  pub live : mem i b.subs ≡ true → Live log seen (b.heap i)
  pub gone : mem i b.subs ≡ false → Gone log seen (b.heap i)

pub follows_live :
    (i : ℕ) (log seen : List TaskEvent) (b : Broker)
    → i < b.next_id
    → Once i b.subs
    → mem i b.subs ≡ true
    → Live log seen (b.heap i)
    → Follows i log seen b
follows_live i log seen b l o m v = record { made = l; once = o; live = λ _. v; gone = λ n. cc }

pub follows_gone :
    (i : ℕ) (log seen : List TaskEvent) (b : Broker)
    → i < b.next_id
    → mem i b.subs ≡ false
    → Gone log seen (b.heap i)
    → Follows i log seen b
follows_gone i log seen b l m v = record {
  made = l;
  once = Once-absent i b.subs m;
  live = λ n. cc;
  gone = λ _. v;
}

Gone-longer :
    (log seen : List TaskEvent) (ev : TaskEvent) (x : Sub)
    → Gone log seen x
    → Gone (log ++ ev ∷ []) seen x
Gone-longer log seen ev x g = record {
  shut = g.shut;
  rest = g.rest ++ ev ∷ [];
  start = ap (λ l. l ++ ev ∷ []) g.start ∙ append_assoc (seen ++ x.queue) g.rest (ev ∷ []);
}

pub publish-Follows :
    (i : ℕ) (log seen : List TaskEvent) (ev : TaskEvent) (b : Broker)
    → Follows i log seen b
    → Follows i (log ++ ev ∷ []) seen (publish ev b)
unfolding publish offer
publish-Follows i log seen ev b f = elim (Bool-cases (mem i b.subs)) [
  | inr n ↦
      let s = offer_all-Skipped ev i b.subs b.heap n in
      follows_gone i _ seen (publish ev b) f.made s.out
        (subst (Gone _ seen) (sym s.same) (Gone-longer log seen ev (b.heap i) (f.gone n)))
  | inl m ↦
      let o = offer_all-Offered ev i b.subs b.heap m f.once in
      let v = f.live m in
      let sent = record (b.heap i) { queue = (b.heap i).queue ++ ev ∷ [] } in
      let cut = record (b.heap i) { is_open = false; overflow = true } in
      elim (Bool-cases (has_room (b.heap i))) [
        | inl r ↦ follows_live i _ seen (publish ev b) f.made o.once (o.stays ∙ r) (
            let e : offer ev i b.heap i ≡ sent = rw r (write_same b.heap i sent) in
            subst (Live (log ++ ev ∷ []) seen) (sym (o.got ∙ e)) (record {
              opened = v.opened;
              whole = ap (λ l. l ++ ev ∷ []) v.whole ∙ append_assoc seen (b.heap i).queue (ev ∷ []);
            }))
        | inr r ↦ follows_gone i _ seen (publish ev b) f.made (o.stays ∙ r) (
            let e : offer ev i b.heap i ≡ cut = rw r (write_same b.heap i cut) in
            subst (Gone (log ++ ev ∷ []) seen) (sym (o.got ∙ e))
              (record { shut = refl; rest = ev ∷ []; start = ap (λ l. l ++ ev ∷ []) v.whole }))
      ]
]

abbrev shut_sub : Sub → Sub
shut_sub x = record x { is_open = false }

-- A subscription that is closed: what it holds stays.
closed-Live :
    (log seen : List TaskEvent) (x : Sub)
    → Live log seen x
    → Gone log seen (record x { is_open = false })
closed-Live log seen x v = record {
  shut = refl;
  rest = [];
  start = v.whole ∙ sym (append-nil (seen ++ x.queue));
}

close_subs-skipped :
    (i : ℕ) (is : List ℕ) (h : ℕ → Sub) → mem i is ≡ false → close_subs is h i ≡ h i
unfolding close_subs mem
close_subs-skipped i [] h n = refl
close_subs-skipped i (j ∷ is) h n =
    close_subs-skipped i is (write_sub h j (record (h j) { is_open = false })) (ground arith)
    ∙ write_other h j i _ (ground arith)

close_subs-shut :
    (i : ℕ) (is : List ℕ) (h : ℕ → Sub)
    → mem i is ≡ true
    → Once i is
    → close_subs is h i ≡ shut_sub (h i)
unfolding close_subs mem
close_subs-shut i [] h m o = cc
close_subs-shut i (j ∷ is) h m o =
    let h' = write_sub h j (record (h j) { is_open = false }) in
    elim (Bool-cases (j == i)) [
      | inl e ↦
          let q : j ≡ i = ground arith in
          close_subs-skipped i is h' (o.0 e) ∙ (rw e refl ∙ ap (λ k. shut_sub (h k)) q)
      | inr e ↦ close_subs-shut i is h' (rw e at m) o.1 ∙ ap shut_sub (write_other h j i _ e)
    ]

pub close-Follows :
    (i : ℕ) (log seen : List TaskEvent) (b : Broker)
    → Follows i log seen b
    → Follows i log seen (close b)
unfolding close mem
close-Follows i log seen b f =
    let b' = record b { done = true; subs = []; heap = close_subs b.subs b.heap } in
    let g : Gone log seen (b'.heap i) = elim (Bool-cases (mem i b.subs)) [
      | inl m ↦
          subst (Gone log seen) (sym (close_subs-shut i b.subs b.heap m f.once))
            (closed-Live log seen (b.heap i) (f.live m))
      | inr n ↦ subst (Gone log seen) (sym (close_subs-skipped i b.subs b.heap n)) (f.gone n)
    ] in
    if_split (Follows i log seen) b.done b b' f (follows_gone i log seen b' f.made refl g)

-- A subscription keeps what another operation leaves alone.
pub kept :
    (i : ℕ) (log seen : List TaskEvent) (b : Broker) (subs : List ℕ) (n : ℕ) (h : ℕ → Sub)
    → Follows i log seen b
    → i < n
    → Once i subs
    → mem i subs ≡ mem i b.subs
    → h i ≡ b.heap i
    → Follows i log seen (record b { subs = subs; next_id = n; heap = h })
kept i log seen b subs n h f l o e q = record {
  made = l;
  once = o;
  live = λ m. subst (Live log seen) (sym q) (f.live (sym e ∙ m));
  gone = λ m. subst (Gone log seen) (sym q) (f.gone (sym e ∙ m));
}

neq_of_lt : (i n : ℕ) → i < n → (n == i) ≡ false
neq_of_lt i n l = ground arith

pub subscribe-Follows :
    (i : ℕ) (log seen : List TaskEvent) (b : Broker)
    → Follows i log seen b
    → Follows i log seen (subscribe b).1
unfolding subscribe mem
subscribe-Follows i log seen b f =
    let d = neq_of_lt i b.next_id f.made in
    if_split (λ (r : (List TaskEvent × ℕ) × Broker). Follows i log seen r.1) b.done _ _
      (kept i log seen b b.subs (suc b.next_id) _ f (omega (arith, f.made)) f.once refl
        (write_other b.heap b.next_id i _ d))
      (kept i log seen b (b.next_id ∷ b.subs) (suc b.next_id) _ f (omega (arith, f.made))
        (λ e. cc, f.once) (rw d refl) (write_other b.heap b.next_id i _ d))

remove-out : (i : ℕ) (l : List ℕ) → mem i (remove i l) ≡ false
unfolding mem remove
remove-out i [] = refl
remove-out i (j ∷ l) = ground (arith, remove-out i l)

remove-other : (i j : ℕ) (l : List ℕ) → (j == i) ≡ false → mem i (remove j l) ≡ mem i l
unfolding mem remove
remove-other i j [] d = refl
remove-other i j (k ∷ l) d = ground (arith, remove-other i j l d)

remove-Once : (i j : ℕ) (l : List ℕ) → (j == i) ≡ false → Once i l → Once i (remove j l)
unfolding remove
remove-Once i j [] d o = o
remove-Once i j (k ∷ l) d o =
    if_split (Once i) (k == j) _ _ (remove-Once i j l d o.1)
      (λ e. remove-other i j l d ∙ o.0 e, remove-Once i j l d o.1)

pub unsubscribe-Follows :
    (i j : ℕ) (log seen : List TaskEvent) (b : Broker)
    → Follows i log seen b
    → Follows i log seen (unsubscribe j b)
unfolding unsubscribe
unsubscribe-Follows i j log seen b f =
    let h = write_sub b.heap j (shut_sub (b.heap j)) in
    let b' = record b { subs = remove j b.subs; heap = h } in
    elim (Bool-cases (mem j b.subs)) [
      | inr n ↦ subst (Follows i log seen) (sym (if_false n b' b)) f
      | inl m ↦ subst (Follows i log seen) (sym (if_true m b' b)) (elim (Bool-cases (j == i)) [
        | inr d ↦
            kept i log seen b (remove j b.subs) b.next_id h f f.made
              (remove-Once i j b.subs d f.once) (remove-other i j b.subs d)
              (write_other b.heap j i _ d)
        | inl e ↦
            let q : j ≡ i = ground arith in
            let m' : mem i b.subs ≡ true = subst (λ k. mem k b.subs ≡ true) q m in
            let w : h i ≡ shut_sub (b.heap i) = rw e (ap (λ k. shut_sub (b.heap k)) q) in
            follows_gone i log seen b' f.made
              (subst (λ k. mem i (remove k b.subs) ≡ false) (sym q) (remove-out i b.subs))
              (subst (Gone log seen) (sym w) (closed-Live log seen (b.heap i) (f.live m')))
      ])
    ]
