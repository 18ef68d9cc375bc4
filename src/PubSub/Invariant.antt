-- ===== src/PubSub/Invariant.antt =====
-- redis-2.6.14/src/pubsub.c: the subscriptions of the clients and the listeners of the server agree.
use galery.Prelude.{
  ℕ, ◌≤◌, ◌≡◌, ◌≢◌, refl, sym, ◌∙◌, ap, Option, none, some, List, [], ◌∷◌, ◌++◌, true, false, ◌==◌,
  if◌then◌else◌, arith, inl, inr, Bool-cases, same_bytes, same_bytes→eq,
}
use galery.PubSub.{
  Notice, PubSub, same_pattern, contains, remove_first, set_subscriber, notify_client, listeners,
  entry_of, attach_channel, subscribe_channel, detach_channel,
}
use galery.PubSub.Counts.{
  count, count-append, contains-count, absent-count, count-contains, count-remove_first,
  same_number, same_text_sym, same_text_refl,
}

-- A client listens to a channel or a pattern on the server's side, once, where it is subscribed to
-- it, once; a channel without listeners has no entry.
pub record IsSubscribed (s : PubSub) : Type 0 where
  pub channels :
      (j : ℕ) (k : List ℕ)
      → count ◌==◌ j (listeners (s.channels k)) ≡ count same_bytes k (s.clients j).channels
  pub channel_once : (j : ℕ) (k : List ℕ) → count same_bytes k (s.clients j).channels ≤ 1
  pub nonempty : (k : List ℕ) → s.channels k ≢ some []
  pub patterns :
      (j : ℕ) (p : List ℕ)
      → count same_pattern (j, p) s.patterns ≡ count same_bytes p (s.clients j).patterns
  pub pattern_once : (j : ℕ) (p : List ℕ) → count same_bytes p (s.clients j).patterns ≤ 1

append-nonempty : (xs : List ℕ) (c : ℕ) → xs ++ c ∷ [] ≢ []
append-nonempty [] c e = cc
append-nonempty (x ∷ xs) c e = cc

some_injective : {xs ys : List ℕ} → some xs ≡ some ys → xs ≡ ys
some_injective e = ap listeners e

pub notify_client-IsSubscribed :
    (s : PubSub) (c : ℕ) (r : Notice) → IsSubscribed s → IsSubscribed (notify_client s c r)
unfolding notify_client set_subscriber
notify_client-IsSubscribed s c r w = record {
  channels = λ j k. ground (arith, w.channels j k);
  channel_once = λ j k. ground (arith, w.channel_once j k);
  nonempty = w.nonempty;
  patterns = λ j p. ground (arith, w.patterns j p);
  pattern_once = λ j p. ground (arith, w.pattern_once j p);
}

attach_channel-IsSubscribed :
    (s : PubSub) (c : ℕ) (k : List ℕ)
    → IsSubscribed s
    → contains same_bytes k (s.clients c).channels ≡ false
    → IsSubscribed (attach_channel s c k)
unfolding attach_channel set_subscriber
attach_channel-IsSubscribed s c k w h = record {
  channels = λ j q. elim (Bool-cases (same_bytes q k)) [
    | inl g ↦ rw (same_bytes→eq q k g) (
        ground (
          arith,
          w.channels j k,
          count-append ◌==◌ j (listeners (s.channels k)) c,
          count-append same_bytes k (s.clients c).channels k,
          same_text_refl k,
        ))
    | inr g ↦ ground (
      arith,
      g,
      w.channels j q,
      count-append same_bytes q (s.clients c).channels k,
      same_text_sym k q,
    )
  ];
  channel_once = λ j q. elim (Bool-cases (same_bytes q k)) [
    | inl g ↦ rw (same_bytes→eq q k g) (
        ground (
          arith,
          w.channel_once j k,
          absent-count same_bytes k _ h,
          count-append same_bytes k (s.clients c).channels k,
          same_text_refl k,
        ))
    | inr g ↦ ground (
      arith,
      g,
      w.channel_once j q,
      count-append same_bytes q (s.clients c).channels k,
      same_text_sym k q,
    )
  ];
  nonempty = λ q. elim (Bool-cases (same_bytes q k)) [
    | inl g ↦ rw g (λ e. append-nonempty (listeners (s.channels k)) c (some_injective e))
    | inr g ↦ rw g (w.nonempty q)
  ];
  patterns = λ j p. ground (arith, w.patterns j p);
  pattern_once = λ j p. ground (arith, w.pattern_once j p);
}

-- `pubsubSubscribeChannel` keeps the two sides in agreement.
pub subscribe_channel-IsSubscribed :
    (s : PubSub) (c : ℕ) (k : List ℕ) → IsSubscribed s → IsSubscribed (subscribe_channel s c k).1
unfolding subscribe_channel
subscribe_channel-IsSubscribed s c k w =
    elim (Bool-cases (contains same_bytes k (s.clients c).channels)) [
      | inl h ↦ rw h (notify_client-IsSubscribed s c _ w)
      | inr h ↦ rw h (notify_client-IsSubscribed _ c _ (attach_channel-IsSubscribed s c k w h))
    ]

listeners-entry : (xs : List ℕ) → listeners (entry_of xs) ≡ xs
listeners-entry [] = refl
listeners-entry (x ∷ xs) = refl

entry-nonempty : (xs : List ℕ) → entry_of xs ≢ some []
entry-nonempty [] e = cc
entry-nonempty (x ∷ xs) e = let f : x ∷ xs ≡ [] = ap listeners e in cc

-- The server after `dictDelete` of a channel with the listeners `cs`.
abbrev pub detached : PubSub → ℕ → List ℕ → List ℕ → PubSub
detached s c k cs =
    set_subscriber
      (record s {
        channels = λ q. if same_bytes q k then entry_of (remove_first ◌==◌ c cs) else s.channels q;
      })
      c (record (s.clients c) { channels = remove_first same_bytes k (s.clients c).channels })

detached-IsSubscribed :
    (s : PubSub) (c : ℕ) (k cs : List ℕ)
    → s.channels k ≡ some cs
    → IsSubscribed s
    → IsSubscribed (detached s c k cs)
unfolding set_subscriber
detached-IsSubscribed s c k cs e w = record {
  channels = λ j q. elim (Bool-cases (same_bytes q k)) [
    | inl g ↦
        let a : count ◌==◌ j cs ≡ count same_bytes k (s.clients j).channels =
          ap (λ o. count ◌==◌ j (listeners o)) (sym e) ∙ w.channels j k in
        rw (same_bytes→eq q k g) (
          ground (
            arith,
            a,
            same_text_refl k,
            ap (count ◌==◌ j) (listeners-entry (remove_first ◌==◌ c cs)),
            count-remove_first ◌==◌ same_number j c cs,
            count-remove_first same_bytes same_bytes→eq k k (s.clients c).channels,
          ))
    | inr g ↦ ground (
      arith,
      g,
      w.channels j q,
      same_text_sym k q,
      count-remove_first same_bytes same_bytes→eq q k (s.clients c).channels,
    )
  ];
  channel_once = λ j q. ground (
    arith,
    w.channel_once j q,
    count-remove_first same_bytes same_bytes→eq q k (s.clients c).channels,
  );
  nonempty = λ q. elim (Bool-cases (same_bytes q k)) [
    | inl g ↦ rw g (entry-nonempty (remove_first ◌==◌ c cs))
    | inr g ↦ rw g (w.nonempty q)
  ];
  patterns = λ j p. ground (arith, w.patterns j p);
  pattern_once = λ j p. ground (arith, w.pattern_once j p);
}

-- What is asserted of the server's side holds for a channel of the client.
pub detach_channel-IsSubscribed :
    (s : PubSub) (c : ℕ) (k : List ℕ)
    → IsSubscribed s
    → contains same_bytes k (s.clients c).channels ≡ true
    → (cs : List ℕ) × (detach_channel s c k ≡ some (detached s c k cs))
      × IsSubscribed (detached s c k cs)
unfolding detach_channel count
detach_channel-IsSubscribed s c k w h = go (s.channels k) refl
  where
    some_listener : 1 ≤ count ◌==◌ c (listeners (s.channels k))
    some_listener = omega (arith, w.channels c k, contains-count same_bytes k _ h)

    go :
        (o : Option (List ℕ))
        → s.channels k ≡ o
        → (cs : List ℕ) × (detach_channel s c k ≡ some (detached s c k cs))
          × IsSubscribed (detached s c k cs)
    go none e = absurd (ground (arith, some_listener, ap (λ o. count ◌==◌ c (listeners o)) e))
    go (some cs) e =
        let b : contains ◌==◌ c cs ≡ true =
          count-contains ◌==◌ c cs (rw (ap (λ o. count ◌==◌ c (listeners o)) e) at some_listener) in
        (cs, rw (detach_channel, e, b) refl, detached-IsSubscribed s c k cs e w)
