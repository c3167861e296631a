-- ===== src/Hub/Replay.antt =====
-- netbus/hub.go: what the ring holds and replays.
use golm.Common.{
  ℕ, zero, suc, ◌+◌, ◌-◌, ◌≤◌, ◌<◌, ◌≡◌, refl, sym, ap, subst, ◌∙◌, inl, inr, Bool-cases, List, [],
  ◌∷◌, ◌++◌, arith, int_half, add_int, ltb, length, drop, length-append, length-drop,
}
use golm.Hub.{Event, Ring, add, newest, newer, after, publish_all, stamped}

-- The ids count on from `n`.
abbrev pub Numbered : ℕ → List Event → Type 0
Numbered n [] = Unit {0}
Numbered n (e ∷ l) = (e.id ≡ suc n) × Numbered (suc n) l

-- The ring holds the last events of all that were published, without a gap, and no more than fit.
pub record InOrder (r : Ring) : Type 0 where
  pub older : ℕ
  pub numbered : Numbered older r.buf
  pub last : older + length r.buf ≡ r.seq
  pub fits : length r.buf ≤ r.cap

Numbered-snoc :
    (n : ℕ) (l : List Event) (e : Event)
    → Numbered n l
    → e.id ≡ suc (n + length l)
    → Numbered n (l ++ e ∷ [])
Numbered-snoc n [] e h q = (omega (arith, q), tt)
Numbered-snoc n (x ∷ l) e h q = (h.0, Numbered-snoc (suc n) l e h.1 (omega (arith, q)))

Numbered-drop :
    (n k : ℕ) (l : List Event) → k ≤ length l → Numbered n l → Numbered (n + k) (drop k l)
Numbered-drop n zero l le h = let e : n ≡ n + 0 = omega arith in subst (λ m. Numbered m l) e h
Numbered-drop n (suc k) [] le h = tt
Numbered-drop n (suc k) (e ∷ l) le h =
    let q : suc n + k ≡ n + suc k = omega arith in
    subst (λ m. Numbered m (drop k l)) q (Numbered-drop (suc n) k l (omega arith) h.1)

newest-InOrder :
    (seq cap older : ℕ) (l : List Event)
    → Numbered older l
    → older + length l ≡ seq
    → InOrder (record { seq = seq; buf = newest cap l; cap = cap })
unfolding newest
newest-InOrder seq cap older l h e = elim (Bool-cases (ltb cap (length l))) [
  | inl over ↦
      let k = length l - cap in
      let n : length (drop k l) ≡ length l - k = length-drop k l in
      let lt : cap < length l = ground arith in
      rw over (record {
        older = older + k;
        numbered = Numbered-drop older k l (omega arith) h;
        last = omega (arith, n);
        fits = omega (arith, n);
      })
  | inr within ↦
      let le : length l ≤ cap = ground arith in
      rw within (record { older = older; numbered = h; last = e; fits = le })
]

add-InOrder : (ev : Event) (r : Ring) → suc r.seq < int_half → InOrder r → InOrder (add ev r)
unfolding add
add-InOrder ev r b o =
    let e : Event = record ev { id = add_int r.seq 1 } in
    let n = length-append r.buf (e ∷ []) in
    newest-InOrder (add_int r.seq 1) r.cap o.older (r.buf ++ e ∷ [])
      (Numbered-snoc o.older r.buf e o.numbered (omega (arith, o.last))) (omega (arith, n, o.last))

newer_all :
    (n m : ℕ) (l : List Event) → Numbered n l → m ≤ n → n + length l < int_half → newer m l ≡ l
unfolding newer
newer_all n m [] h le b = refl
newer_all n m (e ∷ l) h le b =
    ground (arith, h.0, newer_all (suc n) m l h.1 (omega arith) (omega arith))

head_skipped :
    (m : ℕ) (e : Event) (l : List Event) → e.id ≤ m → m < int_half → newer m (e ∷ l) ≡ newer m l
unfolding newer
head_skipped m e l le b = ground arith

newer-drop :
    (n k : ℕ) (l : List Event)
    → Numbered n l
    → n + k < int_half
    → n + length l < int_half
    → newer (n + k) l ≡ drop k l
newer-drop n zero l h c b = newer_all n (n + 0) l h (omega arith) b
newer-drop n (suc k) [] h c b = unfold newer in refl
newer-drop n (suc k) (e ∷ l) h c b =
    let q : n + suc k ≡ suc n + k = omega arith in
    let rest = newer-drop (suc n) k l h.1 (omega arith) (omega arith) in
    rw q (head_skipped (suc n + k) e l (omega (arith, h.0)) (omega arith) ∙ rest)

publish_all-InOrder :
    (evs : List Event) (r : Ring)
    → r.seq + length evs < int_half
    → InOrder r
    → InOrder (publish_all evs r) × ((publish_all evs r).seq ≡ r.seq + length evs)
unfolding publish_all
publish_all-InOrder [] r b o = (o, omega arith)
publish_all-InOrder (ev ∷ evs) r b o =
    let q : (add (stamped ev) r).seq ≡ suc r.seq = unfold add in omega arith in
    let (o', e) =
      publish_all-InOrder evs (add (stamped ev) r) (omega (arith, q))
        (add-InOrder (stamped ev) r (omega arith) o) in
    (o', omega (arith, e, q))

-- What is replayed after an id that is neither ahead of the ring nor older than what it holds.
pub record Replays (t : Ring) (id : ℕ) (out : List Event) : Type 0 where
  held : out ≡ drop (id + length t.buf - t.seq) t.buf
  numbered : Numbered id out
  complete : id + length out ≡ t.seq

after-Replays :
    (t : Ring) (id : ℕ)
    → InOrder t
    → t.seq < int_half
    → id ≤ t.seq
    → t.seq ≤ id + length t.buf
    → Replays t id (after id t)
unfolding after
after-Replays t id o b le held =
    let k = id + length t.buf - t.seq in
    let q : o.older + k ≡ id = omega (arith, o.last) in
    let e : newer id t.buf ≡ drop k t.buf =
      ap (λ i. newer i t.buf) (sym q)
      ∙ newer-drop o.older k t.buf o.numbered (omega arith) (omega (arith, o.last)) in
    let n = length-drop k t.buf in
    record {
      held = e;
      numbered = subst (Numbered id) (sym e) (
          subst (λ i. Numbered i (drop k t.buf)) q
            (Numbered-drop o.older k t.buf (omega arith) o.numbered));
      complete = omega (arith, ap length e, n, o.last);
    }

-- However many events were published into a ring in order, below 2^63 in all, what it replays after
-- an id that is neither ahead of it nor older than what it holds is without a gap: the ids count on
-- from that id to the newest, one for each event since, and the events are the newest ones held.
pub after-publish_all :
    (evs : List Event) (r : Ring) (id : ℕ)
    → r.seq + length evs < int_half
    → InOrder r
    → id ≤ r.seq + length evs
    → r.seq + length evs ≤ id + length (publish_all evs r).buf
    → Replays (publish_all evs r) id (after id (publish_all evs r))
after-publish_all evs r id b o le held =
    let (o', e) = publish_all-InOrder evs r b o in
    after-Replays (publish_all evs r) id o' (omega (arith, e)) (omega (arith, e)) (omega (arith, e))
