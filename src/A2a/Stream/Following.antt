-- ===== src/A2a/Stream/Following.antt =====
-- a2a/taskstore.go: what a subscriber of a task sees of its events, over any series of the
-- operations of its broker.
pub mod Offers
pub mod Steps
pub mod Receipts
pub mod Buffer
use golm.Common.{
  ℤ, pos, negsuc, ℕ, zero, suc, ◌+◌, ◌-◌, ◌≤◌, ◌<◌, ◌≡◌, ◌≢◌, refl, sym, ap, subst, ◌∙◌, inl, inr,
  ◌⊎◌, Bool, true, false, Bool-cases, Option, none, some, List, [], ◌∷◌, ◌++◌, append_assoc,
  append-nil, arith, ◌==◌, ltb, length, length-append, drop, drop-append, if◌then◌else◌, if_split,
  if_true, if_false,
}
use golm.A2a.Stream.{
  max_of, new_broker, TaskEvent, Sub, Broker, fresh_sub, newest, write_sub, has_room, offer,
  offer_all, publish, close_subs, close, subscribe, mem, remove, unsubscribe, receive, Op,
  publishes, closes, subscribes, unsubscribes, receives, apply,
}
use golm.A2a.Stream.Following.Offers.{
  write_same, write_other, Once, Once-absent, Skipped, offer_all-Skipped, Offered,
  offer_all-Offered,
}
use golm.A2a.Stream.Following.Steps.{
  Live, Gone, Follows, follows_live, publish-Follows, close-Follows, subscribe-Follows,
  unsubscribe-Follows,
}
use golm.A2a.Stream.Following.Receipts.{taken, receive-Follows, receive-same}
use golm.A2a.Stream.Following.Buffer.{
  Buffered, publish-Buffered, close-Buffered, subscribe-Buffered, unsubscribe-Buffered,
}

-- The events of the publications, and those that the receiver of `i` takes.
unfoldable pub published : List Op → List TaskEvent
published [] = []
published (publishes ev ∷ os) = ev ∷ published os
published (closes ∷ os) = published os
published (subscribes ∷ os) = published os
published (unsubscribes j ∷ os) = published os
published (receives j ∷ os) = published os

unfoldable pub received : ℕ → List Op → Broker → List TaskEvent
received i [] b = []
received i (o ∷ os) b = taken i o b ++ received i os (apply o b)

unfoldable pub apply_all : List Op → Broker → Broker
apply_all [] b = b
apply_all (o ∷ os) b = apply_all os (apply o b)

follow :
    (i : ℕ) (log seen : List TaskEvent) (b : Broker) (os : List Op)
    → Follows i log seen b
    → Follows i (log ++ published os) (seen ++ received i os b) (apply_all os b)
unfolding published received apply_all apply taken
follow i log seen b [] f = rw (append-nil log, append-nil seen) f
follow i log seen b (publishes ev ∷ os) f =
    rw (← append_assoc log (ev ∷ []) (published os))
      (follow i (log ++ ev ∷ []) seen (publish ev b) os (publish-Follows i log seen ev b f))
follow i log seen b (closes ∷ os) f = follow i log seen (close b) os (close-Follows i log seen b f)
follow i log seen b (subscribes ∷ os) f =
    follow i log seen (subscribe b).1 os (subscribe-Follows i log seen b f)
follow i log seen b (unsubscribes j ∷ os) f =
    follow i log seen (unsubscribe j b) os (unsubscribe-Follows i j log seen b f)
follow i log seen b (receives j ∷ os) f =
    let s = seen ++ taken i (receives j) b in
    subst (λ l. Follows i (log ++ published os) l (apply_all os (receive j b).1))
      (append_assoc seen (taken i (receives j) b) (received i os (receive j b).1))
      (follow i log s (receive j b).1 os (receive-Follows i j log seen b f))

buffered :
    (max : ℕ) (log : List TaskEvent) (b : Broker) (os : List Op)
    → Buffered max log b
    → Buffered max (log ++ published os) (apply_all os b)
unfolding published apply_all apply
buffered max log b [] f = rw (append-nil log) f
buffered max log b (publishes ev ∷ os) f =
    subst (λ l. Buffered max l (apply_all os (publish ev b)))
      (append_assoc log (ev ∷ []) (published os))
      (buffered max (log ++ ev ∷ []) (publish ev b) os (publish-Buffered max log ev b f))
buffered max log b (closes ∷ os) f = buffered max log (close b) os (close-Buffered max log b f)
buffered max log b (subscribes ∷ os) f =
    buffered max log (subscribe b).1 os (subscribe-Buffered max log b f)
buffered max log b (unsubscribes j ∷ os) f =
    buffered max log (unsubscribe j b) os (unsubscribe-Buffered max log j b f)
buffered max log b (receives j ∷ os) f =
    let (h, e) = receive-same j b in
    buffered max log (receive j b).1 os (
      subst (Buffered max log) (sym e)
        (record { roomy = f.roomy; fixed = f.fixed; last = f.last; below = f.below }))

new_broker-Buffered : (max : ℤ) → Buffered (max_of max) [] (new_broker max)
unfolding new_broker max_of newest mem
new_broker-Buffered (pos zero) = record {
  roomy = omega arith;
  fixed = refl;
  last = refl;
  below = λ j m. cc;
}
new_broker-Buffered (pos (suc n)) = record {
  roomy = omega arith;
  fixed = refl;
  last = ground arith;
  below = λ j m. cc;
}
new_broker-Buffered (negsuc n) = record {
  roomy = omega arith;
  fixed = refl;
  last = refl;
  below = λ j m. cc;
}

subscribed :
    (max : ℕ) (log : List TaskEvent) (b : Broker)
    → Buffered max log b
    → b.done ≡ false
    → Follows b.next_id [] [] (subscribe b).1
unfolding subscribe mem
subscribed max log b f d =
    let n : mem b.next_id b.subs ≡ false = elim (Bool-cases (mem b.next_id b.subs)) [
      | inl m ↦ absurd (omega (arith, f.below b.next_id m))
      | inr m ↦ m
    ] in
    let b' = record b {
      subs = b.next_id ∷ b.subs;
      next_id = suc b.next_id;
      heap = write_sub b.heap b.next_id fresh_sub;
    } in
    let w : b'.heap b.next_id ≡ fresh_sub = write_same b.heap b.next_id fresh_sub in
    subst (λ (r : (List TaskEvent × ℕ) × Broker). Follows b.next_id [] [] r.1)
      (sym (if_false d _ ((b.buf, b.next_id), b')))
      (follows_live b.next_id [] [] b' (omega arith) (λ _. n, Once-absent b.next_id b.subs n)
        (ground arith) (subst (Live [] []) (sym w) (record { opened = refl; whole = refl })))

-- What a subscriber has: what was replayed, what it read, and what stands in its channel `x`.
pub record Followed (max : ℕ) (past replayed coming read : List TaskEvent) (x : Sub) : Type 0 where
  pub replays : replayed ≡ newest max past
  pub in_order : (rest : List TaskEvent) × (coming ≡ (read ++ x.queue) ++ rest)
  pub complete : x.is_open ≡ true → coming ≡ read ++ x.queue

-- A subscription to a task's broker that is not done replays the last events of all that were
-- published before. Whatever publications, closings, subscriptions and reads follow, the events
-- that the subscriber reads and those that wait in its channel are, in order, the start of what
-- was published since, and all of it while the channel is open.
pub subscribe-Followed :
    (max : ℤ) (before after : List Op)
    → (apply_all before (new_broker max)).done ≡ false
    → let b = apply_all before (new_broker max) in
      let s = subscribe b in
      Followed
        (max_of max)
        (published before)
        s.0.0
        (published after)
        (received b.next_id after s.1)
        ((apply_all after s.1).heap b.next_id)
unfolding subscribe
subscribe-Followed max before after d =
    let b = apply_all before (new_broker max) in
    let f = buffered (max_of max) [] (new_broker max) before (new_broker-Buffered max) in
    let g = follow b.next_id [] [] (subscribe b).1 after (subscribed _ _ b f d) in
    let r : (subscribe b).0.0 ≡ b.buf =
      if_split (λ (r : (List TaskEvent × ℕ) × Broker). r.0.0 ≡ b.buf) b.done _ _ refl refl in
    let t = apply_all after (subscribe b).1 in
    elim (Bool-cases (mem b.next_id t.subs)) [
      | inl m ↦
          let v = g.live m in
          record {
            replays = r ∙ f.last;
            in_order = ([], v.whole ∙ sym (append-nil _));
            complete = λ _. v.whole;
          }
      | inr m ↦
          let v = g.gone m in
          record { replays = r ∙ f.last; in_order = (v.rest, v.start); complete = λ o. cc }
    ]
