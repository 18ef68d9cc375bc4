-- ===== src/Commands/Watch/Laws.antt =====
-- redis-2.6.14/src/multi.c: the two sides of WATCH, the clients' lists and the databases' dicts, agree.
use galery.Prelude.{
  ℕ, ◌+◌, ◌-◌, ◌≤◌, ◌≡◌, refl, sym, ◌∙◌, ap, inl, inr, List, [], ◌∷◌, ◌++◌, true, false, ◌||◌, ◌==◌,
  if◌then◌else◌, arith, Bool-cases, same_bytes→eq,
}
use galery.Commands.{WatchedKey, same_key, Server, set_client, add_reply, Reply}
use galery.Commands.Watch.{
  is_watched, remove_client, lists_client, unwatch_keys, watch_for_key, unwatch_all_keys,
  touch_watched_key, watch_keys, watch_command, unwatch_command,
}

-- How often a client stands in the list of a key.
unfoldable pub count_client : ℕ → List ℕ → ℕ
count_client j [] = 0
count_client j (x ∷ xs) = (if x == j then 1 else 0) + count_client j xs

-- How often a key stands in the list of a client.
unfoldable pub count_key : WatchedKey → List WatchedKey → ℕ
count_key k [] = 0
count_key k (wk ∷ wks) = (if same_key k wk then 1 else 0) + count_key k wks

count_client-append :
    (j : ℕ) (xs : List ℕ) (c : ℕ)
    → count_client j (xs ++ c ∷ []) ≡ count_client j xs + (if c == j then 1 else 0)
unfolding count_client
count_client-append j [] c = omega arith
count_client-append j (x ∷ xs) c = omega (arith, count_client-append j xs c)

count_key-append :
    (k : WatchedKey) (wks : List WatchedKey) (wk : WatchedKey)
    → count_key k (wks ++ wk ∷ []) ≡ count_key k wks + (if same_key k wk then 1 else 0)
unfolding count_key
count_key-append k [] wk = omega arith
count_key-append k (x ∷ wks) wk = omega (arith, count_key-append k wks wk)

count_client-remove :
    (j c : ℕ) (xs : List ℕ)
    → count_client j (remove_client c xs) ≡ count_client j xs - (if c == j then 1 else 0)
unfolding count_client remove_client
count_client-remove j c [] = omega arith
count_client-remove j c (x ∷ xs) = ground (arith, count_client-remove j c xs)

count_client-unwatch :
    (j c : ℕ) (wks : List WatchedKey) (w : WatchedKey → List ℕ) (k : WatchedKey)
    → count_client j (unwatch_keys c wks w k)
      ≡ count_client j (w k) - (if c == j then count_key k wks else 0)
unfolding count_key unwatch_keys
count_client-unwatch j c [] w k = ground arith
count_client-unwatch j c (wk ∷ wks) w k = ground (
  arith,
  count_client-unwatch j c wks (λ k. if same_key k wk then remove_client c (w k) else w k) k,
  count_client-remove j c (w k),
)

count_key-is_watched :
    (k : WatchedKey) (wks : List WatchedKey) → is_watched k wks ≡ false → count_key k wks ≡ 0
unfolding count_key is_watched
count_key-is_watched k [] h = refl
count_key-is_watched k (wk ∷ wks) h = ground (arith, count_key-is_watched k wks)

is_watched-count_key :
    (k : WatchedKey) (wks : List WatchedKey) → is_watched k wks ≡ true → 1 ≤ count_key k wks
unfolding count_key is_watched
is_watched-count_key k [] h = absurd (ground arith)
is_watched-count_key k (wk ∷ wks) h = ground (arith, is_watched-count_key k wks)

lists_client-count_client : (j : ℕ) (xs : List ℕ) → 1 ≤ count_client j xs → lists_client j xs ≡ true
unfolding count_client lists_client
lists_client-count_client j [] h = absurd (omega arith)
lists_client-count_client j (x ∷ xs) h = ground (arith, lists_client-count_client j xs)

lists_client-none : (j : ℕ) (xs : List ℕ) → count_client j xs ≡ 0 → lists_client j xs ≡ false
unfolding count_client lists_client
lists_client-none j [] h = refl
lists_client-none j (x ∷ xs) h = ground (arith, lists_client-none j xs)

same_key→eq : (a b : WatchedKey) → same_key a b ≡ true → a ≡ b
same_key→eq (i, a) (j, b) h = ground (arith, same_bytes→eq a b)

module _ {D : Type 0} where
  -- A client is in the list of a key, once, where the key is in the client's list, once.
  pub record IsWatching (s : Server D) : Type 0 where
    pub agree :
        (j : ℕ) (k : WatchedKey)
        → count_client j (s.watchers k) ≡ count_key k (s.clients j).watched_keys
    pub once : (j : ℕ) (k : WatchedKey) → count_key k (s.clients j).watched_keys ≤ 1

  -- `touchWatchedKey` gives the flag to the clients that watch the key, and to no others.
  pub touch_watched_key_lem :
      (s : Server D) (key : WatchedKey) (j : ℕ)
      → IsWatching s
      → ((touch_watched_key s key).clients j).dirty_cas
        ≡ (is_watched key (s.clients j).watched_keys || (s.clients j).dirty_cas)
  unfolding touch_watched_key
  touch_watched_key_lem s key j w = elim (Bool-cases (is_watched key (s.clients j).watched_keys)) [
    | inl h ↦ ground (
      arith,
      lists_client-count_client j (s.watchers key)
          (omega (arith, w.agree j key, is_watched-count_key key _ h)),
    )
    | inr h ↦ ground (
      arith,
      lists_client-none j (s.watchers key)
          (omega (arith, w.agree j key, count_key-is_watched key _ h)),
    )
  ]

  watch_for_key-IsWatching :
      (s : Server D) (c : ℕ) (key : List ℕ) → IsWatching s → IsWatching (watch_for_key s c key)
  unfolding watch_for_key set_client
  watch_for_key-IsWatching s c key w =
      let wk : WatchedKey = ((s.clients c).db, key) in
      elim (Bool-cases (is_watched wk (s.clients c).watched_keys)) [
        | inl h ↦ rw h w
        | inr h ↦ rw h (record {
          agree = λ j k. ground (
            arith,
            w.agree j k,
            count_client-append j (s.watchers k) c,
            count_key-append k (s.clients c).watched_keys wk,
          );
          once = λ j k. elim (Bool-cases (same_key k wk)) [
            | inl e ↦ ground (
              arith,
              w.once j k,
              count_key-append k (s.clients c).watched_keys wk,
              ap (λ i. count_key i (s.clients c).watched_keys) (same_key→eq k wk e),
              count_key-is_watched wk _ h,
            )
            | inr e ↦ ground (arith, w.once j k, count_key-append k (s.clients c).watched_keys wk)
          ];
        })
      ]

  unwatch_all_keys-IsWatching :
      (s : Server D) (c : ℕ) → IsWatching s → IsWatching (unwatch_all_keys s c)
  unfolding unwatch_all_keys set_client count_key
  unwatch_all_keys-IsWatching s c w = record {
    agree = λ j k.
        ground
          (arith, w.agree j k, count_client-unwatch j c (s.clients c).watched_keys s.watchers k);
    once = λ j k. ground (arith, w.once j k);
  }

  watch_keys-IsWatching :
      (keys : List (List ℕ)) (s : Server D) (c : ℕ)
      → IsWatching s
      → IsWatching (watch_keys s c keys)
  unfolding watch_keys
  watch_keys-IsWatching [] s c w = w
  watch_keys-IsWatching (key ∷ keys) s c w =
      watch_keys-IsWatching keys (watch_for_key s c key) c (watch_for_key-IsWatching s c key w)

  -- What does not touch the two sides keeps them in agreement.
  pub IsWatching-cong :
      (s s' : Server D)
      → ((k : WatchedKey) → s'.watchers k ≡ s.watchers k)
      → ((j : ℕ) → (s'.clients j).watched_keys ≡ (s.clients j).watched_keys)
      → IsWatching s
      → IsWatching s'
  IsWatching-cong s s' a b w = record {
    agree = λ j k. ap (count_client j) (a k) ∙ w.agree j k ∙ ap (count_key k) (sym (b j));
    once = λ j k. rw (b j) (w.once j k);
  }

  add_reply-IsWatching :
      (s : Server D) (c : ℕ) (r : Reply) → IsWatching s → IsWatching (add_reply s c r)
  unfolding add_reply set_client
  add_reply-IsWatching s c r w =
      IsWatching-cong s (add_reply s c r) (λ k. refl) (λ j. ground arith) w

  -- WATCH keeps the lists of the clients and the dicts of the databases in agreement, inside MULTI and
  -- outside of it.
  pub watch_command-IsWatching :
      (s : Server D) (c : ℕ) → IsWatching s → IsWatching (watch_command s c)
  unfolding watch_command
  watch_command-IsWatching s c w = elim (Bool-cases (s.clients c).multi) [
    | inl h ↦ rw h (add_reply-IsWatching s c Reply.watch_inside_multi w)
    | inr h ↦ rw h (add_reply-IsWatching _ c Reply.okay (watch_keys-IsWatching _ s c w))
  ]

  touch_watched_key-IsWatching :
      (s : Server D) (key : WatchedKey) → IsWatching s → IsWatching (touch_watched_key s key)
  unfolding touch_watched_key
  touch_watched_key-IsWatching s key w =
      IsWatching-cong s (touch_watched_key s key) (λ k. refl) (λ j. ground arith) w

  unwatch_command-IsWatching :
      (s : Server D) (c : ℕ) → IsWatching s → IsWatching (unwatch_command s c)
  unfolding unwatch_command set_client
  unwatch_command-IsWatching s c w =
      let u = unwatch_all_keys-IsWatching s c w in
      add_reply-IsWatching _ c Reply.okay
        (IsWatching-cong (unwatch_all_keys s c) _ (λ k. refl) (λ j. ground arith) u)

  -- UNWATCH and the touching of a key keep the two sides of WATCH in agreement; after UNWATCH the client
  -- watches no key and its dirty flag is off.
  pub unwatch_command_lem :
      (s : Server D) (c : ℕ) (key : WatchedKey)
      → IsWatching s
      → IsWatching (unwatch_command s c)
        × IsWatching (touch_watched_key s key)
        × (((unwatch_command s c).clients c).watched_keys ≡ [])
        × (((unwatch_command s c).clients c).dirty_cas ≡ false)
  unwatch_command_lem s c key w = (
    unwatch_command-IsWatching s c w,
    touch_watched_key-IsWatching s key w,
    unfold unwatch_command unwatch_all_keys add_reply set_client in ground arith,
    unfold unwatch_command unwatch_all_keys add_reply set_client in ground arith,
  )
