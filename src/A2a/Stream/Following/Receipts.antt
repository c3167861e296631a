-- ===== src/A2a/Stream/Following/Receipts.antt =====
-- a2a/taskstore.go: a subscription of a broker, when a channel is read.
use golm.Common.{
  ℕ, ◌≡◌, refl, sym, ap, subst, ◌∙◌, inl, inr, ◌⊎◌, Bool, true, false, Bool-cases, Option, none,
  some, List, [], ◌∷◌, ◌++◌, append_assoc, append-nil, arith, ◌==◌, if◌then◌else◌,
}
use golm.A2a.Stream.{
  TaskEvent, Sub, Broker, write_sub, receive, Op, publishes, closes, subscribes, unsubscribes,
  receives,
}
use golm.A2a.Stream.Following.Offers.{write_same, write_other}
use golm.A2a.Stream.Following.Steps.{Live, Gone, Follows, kept}

option_list : Option TaskEvent → List TaskEvent
option_list none = []
option_list (some ev) = ev ∷ []

receive_empty : (j : ℕ) (b : Broker) → (b.heap j).queue ≡ [] → receive j b ≡ (none, b)
unfolding receive
receive_empty j b e = rw (e, receive) refl

receive_oldest :
    (j : ℕ) (b : Broker) (ev : TaskEvent) (q : List TaskEvent)
    → (b.heap j).queue ≡ ev ∷ q
    → receive j b
      ≡ (some ev, record b { heap = write_sub b.heap j (record (b.heap j) { queue = q }) })
unfolding receive
receive_oldest j b ev q e = simp (e, receive) refl

-- The events that one step brings the receiver of `i`.
unfoldable pub taken : ℕ → Op → Broker → List TaskEvent
unfolding option_list
taken i (receives j) b = if j == i then option_list (receive j b).0 else []
taken i (publishes ev) b = []
taken i closes b = []
taken i subscribes b = []
taken i (unsubscribes j) b = []

queue_cases :
    (q : List TaskEvent) → (q ≡ []) ⊎ ((e : TaskEvent) × (r : List TaskEvent) × (q ≡ e ∷ r))
queue_cases [] = inl refl
queue_cases (e ∷ r) = inr (e, r, refl)

-- The oldest event goes from the channel to the reader.
moved :
    (log seen : List TaskEvent) (ev : TaskEvent) (x : Sub) (q rest : List TaskEvent)
    → x.queue ≡ ev ∷ q
    → log ≡ (seen ++ x.queue) ++ rest
    → log ≡ ((seen ++ ev ∷ []) ++ q) ++ rest
moved log seen ev x q rest e h =
    h ∙ ap (λ l. l ++ rest) (ap (λ l. seen ++ l) e ∙ sym (append_assoc seen (ev ∷ []) q))

own_receive :
    (i : ℕ) (log seen : List TaskEvent) (b : Broker) (ev : TaskEvent) (q : List TaskEvent)
    → (b.heap i).queue ≡ ev ∷ q
    → Follows i log seen b
    → Follows i log
        (seen ++ ev ∷ [])
        (record b { heap = write_sub b.heap i (record (b.heap i) { queue = q }) })
own_receive i log seen b ev q e f =
    let x = record (b.heap i) { queue = q } in
    let w = sym (write_same b.heap i x) in
    record {
      made = f.made;
      once = f.once;
      live = λ m. subst (Live log (seen ++ ev ∷ [])) w (record {
        opened = (f.live m).opened;
        whole = (f.live m).whole ∙ (ap (λ l. seen ++ l) e ∙ sym (append_assoc seen (ev ∷ []) q));
      });
      gone = λ m. subst (Gone log (seen ++ ev ∷ [])) w (record {
        shut = (f.gone m).shut;
        rest = (f.gone m).rest;
        start = moved log seen ev (b.heap i) q (f.gone m).rest e (f.gone m).start;
      });
    }

if_same : (b : Bool) → ◌≡◌ {A = List TaskEvent} (if b then [] else []) []
if_same true = refl
if_same false = refl

pub receive-Follows :
    (i j : ℕ) (log seen : List TaskEvent) (b : Broker)
    → Follows i log seen b
    → Follows i log (seen ++ taken i (receives j) b) (receive j b).1
unfolding taken option_list
receive-Follows i j log seen b f = elim (queue_cases (b.heap j).queue) [
  | inl e ↦
      let r = receive_empty j b e in
      let none_taken : taken i (receives j) b ≡ [] = rw r (if_same (j == i)) in
      rw (none_taken, r) (subst (λ l. Follows i log l b) (sym (append-nil seen)) f)
  | inr (ev, q, e) ↦
      let r = receive_oldest j b ev q e in
      elim (Bool-cases (j == i)) [
        | inl d ↦
            let same : j ≡ i = ground arith in
            let w : taken i (receives j) b ≡ ev ∷ [] = rw (r, d) refl in
            let g =
              own_receive i log seen b ev q (subst (λ k. (b.heap k).queue ≡ ev ∷ q) same e) f in
            rw w (
              subst (λ k. Follows i log (seen ++ ev ∷ []) (receive k b).1) (sym same)
                (rw (receive_oldest i b ev q (subst (λ k. (b.heap k).queue ≡ ev ∷ q) same e)) g))
        | inr d ↦
            let w : taken i (receives j) b ≡ [] = rw d refl in
            rw (w, append-nil seen, r)
              (kept i log seen b b.subs b.next_id _ f f.made f.once refl
                (write_other b.heap j i _ d))
      ]
]

pub receive-same : (j : ℕ) (b : Broker) → (h : ℕ → Sub) × ((receive j b).1 ≡ record b { heap = h })
receive-same j b = elim (queue_cases (b.heap j).queue) [
  | inl e ↦ (b.heap, rw (receive_empty j b e) refl)
  | inr (ev, q, e) ↦
      (write_sub b.heap j (record (b.heap j) { queue = q }), rw (receive_oldest j b ev q e) refl)
]
