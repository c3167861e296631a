-- ===== src/Session/Saved.antt =====
-- session.go: what a stored session keeps, and the map of states.
use golm.Common.{
  ℕ, ◌≡◌, refl, false, none, some, [], ◌∷◌, Bytes, arith, bytes_eq, bytes_eq_iff, bytes_eq_refl,
  is_empty, ◌==◌, if◌then◌else◌,
}
use golm.Session.{Session, States, with_id, snapshot, session_of, lookup, put, delete}

-- Writing a key is read back, and no other key is touched.
pub lookup-put :
    (k j v : Bytes) (m : States)
    → lookup j (put k v m) ≡ (if bytes_eq k j then some v else lookup j m)
unfolding lookup put
lookup-put k j v [] = refl
lookup-put k j v ((i, w) ∷ m) = ground (
  arith,
  bytes_eq_iff i k,
  bytes_eq_iff i j,
  bytes_eq_iff k j,
  bytes_eq_refl j,
  lookup-put k j v m,
)

-- A deleted key is absent, and no other key is touched.
pub lookup-delete :
    (k j : Bytes) (m : States) → lookup j (delete k m) ≡ (if bytes_eq k j then none else lookup j m)
unfolding lookup delete
lookup-delete k j [] = ground arith
lookup-delete k j ((i, w) ∷ m) = ground (
  arith,
  bytes_eq_iff i k,
  bytes_eq_iff i j,
  bytes_eq_iff k j,
  bytes_eq_refl j,
  lookup-delete k j m,
)

-- A session restored from a snapshot has the id, provenance, title, times, transcript, states and
-- usage of the snapshotted session; its revision count starts again at 0 and no run is in flight. A
-- session that never got a creation time comes back with the time of the restoring. The snapshot
-- changes the session itself only where its id was empty: it mints one, and a creation time where
-- there was none. The text that
-- is minted must not be empty.
pub session_of-snapshot :
    (s : Session) (random random' : Bytes) (now later : ℕ)
    → is_empty random ≡ false
    → let (d, live) = snapshot random now s in
      (session_of random' later d ≡ record live {
        created = if live.created == 0 then later else live.created;
        rev = 0;
        running = false;
      })
      × (live ≡ (
          if is_empty s.id
          then record s { id = random; created = if s.created == 0 then now else s.created }
          else s))
unfolding snapshot session_of with_id
session_of-snapshot s random random' now later p = ground arith
