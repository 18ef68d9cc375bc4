-- ===== src/Commands/Watch.antt =====
-- redis-2.6.14/src/multi.c: WATCH, UNWATCH and the touching of watched keys.
pub mod Laws
use galery.Prelude.{
  ℕ, Option, none, some, List, [], ◌∷◌, ◌++◌, Bool, true, false, ◌&&◌, ◌||◌, ◌==◌, if◌then◌else◌,
}
use galery.Commands.{
  Reply, okay, watch_inside_multi, WatchedKey, same_key, Client, Server, set_client, add_reply,
}

-- The loop of `watchForKey` over the client's own list.
unfoldable pub is_watched : WatchedKey → List WatchedKey → Bool
is_watched key [] = false
is_watched key (wk ∷ wks) = same_key key wk || is_watched key wks

-- `listSearchKey` and `listDelNode`: the first occurrence of the client goes.
unfoldable pub remove_client : ℕ → List ℕ → List ℕ
remove_client c [] = []
remove_client c (x ∷ xs) = if x == c then xs else x ∷ remove_client c xs

unfoldable pub lists_client : ℕ → List ℕ → Bool
lists_client c [] = false
lists_client c (x ∷ xs) = (x == c) || lists_client c xs

-- The loop of `unwatchAllKeys` over the client's list, on the dicts of the databases.
unfoldable pub unwatch_keys : ℕ → List WatchedKey → (WatchedKey → List ℕ) → WatchedKey → List ℕ
unwatch_keys c [] watchers = watchers
unwatch_keys c (wk ∷ wks) watchers =
    unwatch_keys c wks (λ k. if same_key k wk then remove_client c (watchers k) else watchers k)

module _ {D : Type 0} where
  unfoldable pub watch_for_key : Server D → ℕ → List ℕ → Server D
  unfolding set_client
  watch_for_key s c key =
      let x = s.clients c in
      let wk : WatchedKey = (x.db, key) in
      if is_watched wk x.watched_keys
      then s
      else set_client
          (record s {
            watchers = λ k. if same_key k wk then s.watchers k ++ c ∷ [] else s.watchers k;
          })
          c (record x { watched_keys = x.watched_keys ++ wk ∷ [] })

  -- `unwatchAllKeys`, where every watched key has its list of clients (the assertion is left out).
  unfoldable pub unwatch_all_keys : Server D → ℕ → Server D
  unfolding set_client
  unwatch_all_keys s c =
      let x = s.clients c in
      set_client (record s { watchers = unwatch_keys c x.watched_keys s.watchers }) c
        (record x { watched_keys = [] })

  -- `touchWatchedKey`
  unfoldable pub touch_watched_key : Server D → WatchedKey → Server D
  touch_watched_key s key = record s {
    clients = λ j.
        if lists_client j (s.watchers key)
        then record (s.clients j) { dirty_cas = true }
        else s.clients j;
  }

  module _ (has_key : D → WatchedKey → Bool) where
    -- The inner loop of `touchWatchedKeysOnFlush`; `dbid` is none for -1.
    unfoldable pub is_flushed : D → Option ℕ → List WatchedKey → Bool
    is_flushed keyspace dbid [] = false
    is_flushed keyspace dbid (wk ∷ wks) =
        (elim dbid [ none ↦ true | some i ↦ wk.0 == i ] && has_key keyspace wk)
        || is_flushed keyspace dbid wks

    unfoldable pub touch_watched_keys_on_flush : Server D → Option ℕ → Server D
    touch_watched_keys_on_flush s dbid = record s {
      clients = λ j.
          if is_flushed s.keyspace dbid (s.clients j).watched_keys
          then record (s.clients j) { dirty_cas = true }
          else s.clients j;
    }

  -- The loop of `watchCommand` over the arguments.
  unfoldable pub watch_keys : Server D → ℕ → List (List ℕ) → Server D
  watch_keys s c [] = s
  watch_keys s c (key ∷ keys) = watch_keys (watch_for_key s c key) c keys

  unfoldable pub watch_command : Server D → ℕ → Server D
  watch_command s c =
      if (s.clients c).multi
      then add_reply s c watch_inside_multi
      else add_reply (watch_keys s c (elim (s.clients c).argv [ [] ↦ [] | name ∷ keys ↦ keys ])) c
          okay

  unfoldable pub unwatch_command : Server D → ℕ → Server D
  unwatch_command s c =
      let s' = unwatch_all_keys s c in
      add_reply (set_client s' c (record (s'.clients c) { dirty_cas = false })) c okay
