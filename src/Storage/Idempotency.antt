-- ===== src/Storage/Idempotency.antt =====
-- Laws of the idempotency keys in internal/storage/postgres/repository.go: what a key is bound to, and
-- what a post with a bound key is answered with.
use currency_quotes_service.Prelude.{
  ℕ, ◌+◌, ◌<◌, ◌≡◌, ◌≢◌, refl, ◌⊎◌, inl, inr, Bool, true, false, List, [], ◌∷◌, ◌++◌, none, some,
  Text, ◌==◌, leb, if◌then◌else◌, map, find?, text_eq, Option-cases, Bool-cases, arith,
}
use currency_quotes_service.Domain.Errors.{ok, err, sentinel, key_conflict}
use currency_quotes_service.Storage.Schema.{Row, KeyRow, Db, scan_task}
use currency_quotes_service.Storage.Statements.{
  has_id, has_key, is_live, rebind, bind_key, select_by_key,
}
use currency_quotes_service.Storage.World.{World, answered, turn, execute}
use currency_quotes_service.Storage.Repository.{create_task, task_by_key, replay_task}

find-live :
    (now ttl key : ℕ) (ks : List KeyRow) (k : KeyRow)
    → find? (has_key key) ks ≡ some k
    → now < k.created_at + ttl
    → find? (is_live now ttl key) ks ≡ some k
unfolding find?
find-live now ttl key [] k e l = cc
find-live now ttl key (j ∷ ks) k e l = ground (arith, find-live now ttl key ks k)

-- A post whose key is bound, by a binding that has not outlived its lifetime, is answered with the
-- bound task whatever its status, if that is for the pair of the post, and with a conflict otherwise;
-- neither changes anything.
pub create_task-replay :
    (ttl key : ℕ) (pair : Text) (w : World) (k : KeyRow) (r : Row)
    → (turn w).fate ≡ answered
    → find? (has_key key) ((turn w).others w.db).keys ≡ some k
    → (turn w).now < k.created_at + ttl
    → find? (has_id k.update_id) ((turn w).others w.db).tasks ≡ some r
    → let a = create_task ttl pair (some key) w in
      (a.0 ≡ (if text_eq r.pair pair then ok (scan_task r) else err (sentinel key_conflict)))
      × (a.1.db ≡ (turn w).others w.db)
unfolding create_task task_by_key execute select_by_key replay_task
create_task-replay ttl key pair w k r f e l m =
    ground (arith, find-live (turn w).now ttl key ((turn w).others w.db).keys k e l)

find-append :
    (p : KeyRow → Bool) (ks : List KeyRow) (k j : KeyRow)
    → find? p ks ≡ some k
    → find? p (ks ++ j ∷ []) ≡ some k
unfolding find?
find-append p [] k j e = cc
find-append p (i ∷ ks) k j e = ground (arith, find-append p ks k j)

find-append_new :
    (p : KeyRow → Bool) (ks : List KeyRow) (j : KeyRow)
    → find? p ks ≡ none
    → p j ≡ true
    → find? p (ks ++ j ∷ []) ≡ some j
unfolding find?
find-append_new p [] j e h = ground arith
find-append_new p (i ∷ ks) j e h = ground (arith, find-append_new p ks j)

find-rebind :
    (now key id other : ℕ) (ks : List KeyRow)
    → key ≢ other
    → find? (has_key other) (map (rebind now key id) ks) ≡ find? (has_key other) ks
unfolding find?
find-rebind now key id other [] h = refl
find-rebind now key id other (k ∷ ks) h = ground (arith, find-rebind now key id other ks h)

find-rebind_self :
    (now key id : ℕ) (ks : List KeyRow) (k : KeyRow)
    → find? (has_key key) ks ≡ some k
    → find? (has_key key) (map (rebind now key id) ks)
      ≡ some (record { key = key; update_id = id; created_at = now })
unfolding find?
find-rebind_self now key id [] k e = cc
find-rebind_self now key id (j ∷ ks) k e = ground (arith, find-rebind_self now key id ks k)

module _ (now ttl key id : ℕ) (d d' : Db) where
  -- A binding of any key that has not outlived its lifetime survives the binding of a key.
  pub bind_key-keeps :
      (b : Bool) (k : KeyRow)
      → bind_key now ttl key id d ≡ some (b, d')
      → find? (has_key k.key) d.keys ≡ some k
      → now < k.created_at + ttl
      → find? (has_key k.key) d'.keys ≡ some k
  unfolding bind_key
  bind_key-keeps b k e f l = elim (Bool-cases (key == k.key)) [
    | inl same ↦
        let own : find? (has_key key) d.keys ≡ some k = rw (eq_of_test same) f in
        ground (arith, own)
    | inr other ↦ elim (Option-cases (find? (has_key key) d.keys)) [
      | inl free ↦ ground (
        arith,
        free,
        find-append (has_key k.key) d.keys k
            (record { key = key; update_id = id; created_at = now }),
      )
      | inr (j, found) ↦ ground (arith, found, find-rebind now key id k.key d.keys)
    ]
  ]
    where
      eq_of_test : (key == k.key) ≡ true → key ≡ k.key
      eq_of_test t = ground arith

  -- A key that was bound is bound to the task, from the present moment on; one that was not is held
  -- by a binding that lives, and nothing has changed.
  pub bind_key-outcome :
      (b : Bool)
      → bind_key now ttl key id d ≡ some (b, d')
      → ((b ≡ true)
          × (find? (has_key key) d'.keys
              ≡ some (record { key = key; update_id = id; created_at = now })))
        ⊎ ((b ≡ false)
            × (d' ≡ d)
            × ((k : KeyRow) × (find? (has_key key) d.keys ≡ some k) × (now < k.created_at + ttl)))
  unfolding bind_key
  bind_key-outcome b e = elim (Option-cases (find? (has_key key) d.keys)) [
    | inl free ↦ inl (
        ground (
          arith,
          free,
          find-append_new (has_key key) d.keys
              (record { key = key; update_id = id; created_at = now }),
        ))
    | inr (k, found) ↦ elim (Bool-cases (leb (k.created_at + ttl) now)) [
      | inl old ↦ inl (ground (arith, found, find-rebind_self now key id d.keys k found))
      | inr live ↦ inr (ground (arith, found), ground (arith, found), (k, found, ground arith))
    ]
  ]
