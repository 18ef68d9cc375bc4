-- ===== src/PubSub/Leave.antt =====
-- redis-2.6.14/src/pubsub.c: leaving channels and patterns.
use galery.Prelude.{
  ℕ, ◌+◌, ◌≤◌, ◌≡◌, refl, sym, ◌∙◌, ap, Option, none, some, List, [], ◌∷◌, Bool, true, false, ◌&&◌,
  ◌==◌, if◌then◌else◌, arith, inl, inr, Bool-cases, same_bytes, same_bytes→eq,
}
use galery.PubSub.{
  Notice, Subscriber, PubSub, contains, remove_first, set_subscriber, notify_client, subscriptions,
  unsubscribe_channel, unsubscribed, unsubscribe_channels, unsubscribe_all_channels, notify_nothing,
}
use galery.PubSub.Counts.{count, absent-count, count-remove_first, same_text_refl}
use galery.PubSub.Invariant.{
  IsSubscribed, notify_client-IsSubscribed, detached, detach_channel-IsSubscribed,
}

-- `t` is `s` after the client `c` has left the channels or patterns of the list `ks`.
pub record Leaves (s t : PubSub) (c : ℕ) (ks : List (List ℕ)) (of : Subscriber → List (List ℕ))
    : Type 0 where
  pub valid : IsSubscribed t
  pub fewer :
      (q : List ℕ) → count same_bytes q (of (t.clients c)) ≤ count same_bytes q (of (s.clients c))
  pub gone :
      (q : List ℕ) → contains same_bytes q ks ≡ true → count same_bytes q (of (t.clients c)) ≡ 0

-- A channel that was not there, or is taken out, is gone.
pub kept-gone :
    (k q : List ℕ) (xs : List (List ℕ))
    → contains same_bytes k xs ≡ false
    → contains same_bytes q (k ∷ []) ≡ true
    → count same_bytes q xs ≡ 0
unfolding contains
kept-gone k q xs h i =
    let e : k ≡ q = same_bytes→eq k q (ground arith) in
    ap (λ y. count same_bytes y xs) (sym e) ∙ absent-count same_bytes k xs h

pub removed-gone :
    (k q : List ℕ) (xs : List (List ℕ))
    → count same_bytes q xs ≤ 1
    → contains same_bytes q (k ∷ []) ≡ true
    → count same_bytes q (remove_first same_bytes k xs) ≡ 0
unfolding contains
removed-gone k q xs b i = ground (arith, count-remove_first same_bytes same_bytes→eq q k xs)

detached-channels :
    (s : PubSub) (c : ℕ) (k cs : List ℕ)
    → ((detached s c k cs).clients c).channels ≡ remove_first same_bytes k (s.clients c).channels
unfolding set_subscriber
detached-channels s c k cs = ground arith

unfoldable pub notified : Bool → PubSub → ℕ → Notice → PubSub
notified notify s c r = if notify then notify_client s c r else s

pub notified-frame :
    (notify : Bool) (s : PubSub) (c : ℕ) (r : Notice)
    → IsSubscribed s
    → IsSubscribed (notified notify s c r)
      × (((notified notify s c r).clients c).channels ≡ (s.clients c).channels)
      × (((notified notify s c r).clients c).patterns ≡ (s.clients c).patterns)
unfolding notified notify_client set_subscriber
notified-frame true s c r w = (notify_client-IsSubscribed s c r w, ground arith, ground arith)
notified-frame false s c r w = (w, refl, refl)

-- On a server where the two sides agree, `pubsubUnsubscribeChannel` does not fail an assertion: it answers
-- whether the client was subscribed, the client has left the channel, and the two sides agree.
pub unsubscribe_channel-Leaves :
    (s : PubSub) (c : ℕ) (k : List ℕ) (notify : Bool)
    → IsSubscribed s
    → (t : PubSub) × (unsubscribe_channel s c k notify
        ≡ some (contains same_bytes k (s.clients c).channels, t))
      × Leaves s t c (k ∷ []) (λ x. x.channels)
unfolding unsubscribe_channel notified
unsubscribe_channel-Leaves s c k notify w =
    elim (Bool-cases (contains same_bytes k (s.clients c).channels)) [
      | inr h ↦
          let f =
            notified-frame notify s c (unsubscribed (some k) (subscriptions (s.clients c))) w in
          (
            _,
            rw (unsubscribe_channel, h, h) refl,
            record {
              valid = f.0;
              fewer = λ q. omega (arith, ap (count same_bytes q) f.1);
              gone = λ q i. ap (count same_bytes q) f.1 ∙ kept-gone k q _ h i;
            },
          )
      | inl h ↦
          let d = detach_channel-IsSubscribed s c k w h in
          let u = detached s c k d.0 in
          let f =
            notified-frame notify u c (unsubscribed (some k) (subscriptions (u.clients c))) d.2 in
          let e = f.1 ∙ detached-channels s c k d.0 in
          (
            _,
            rw (unsubscribe_channel, h, d.1, h) refl,
            record {
              valid = f.0;
              fewer = λ q. omega (
                arith,
                ap (count same_bytes q) e,
                count-remove_first same_bytes same_bytes→eq q k (s.clients c).channels,
              );
              gone = λ q i. ap (count same_bytes q) e ∙ removed-gone k q _ (w.channel_once c q) i;
            },
          )
    ]

-- The loop over channels leaves each of them.
pub unsubscribe_channels-Leaves :
    (ks : List (List ℕ)) (s : PubSub) (c : ℕ) (notify : Bool)
    → IsSubscribed s
    → (n : ℕ) × (t : PubSub) × (unsubscribe_channels ks s c notify ≡ some (n, t))
      × Leaves s t c ks (λ x. x.channels)
unfolding unsubscribe_channels contains
unsubscribe_channels-Leaves [] s c notify w = (
  0,
  s,
  refl,
  record { valid = w; fewer = λ q. omega arith; gone = λ q i. absurd (ground arith) },
)
unsubscribe_channels-Leaves (k ∷ ks) s c notify w =
    let o = unsubscribe_channel-Leaves s c k notify w in
    let r = unsubscribe_channels-Leaves ks o.0 c notify o.2.valid in
    (
      (if contains same_bytes k (s.clients c).channels then 1 else 0) + r.0,
      r.1,
      rw (unsubscribe_channels, o.1, r.2) refl,
      record {
        valid = r.3.valid;
        fewer = λ q. omega (arith, r.3.fewer q, o.2.fewer q);
        gone = λ q i. elim (Bool-cases (contains same_bytes q ks)) [
          | inl g ↦ r.3.gone q g
          | inr g ↦ omega (arith, r.3.fewer q, o.2.gone q (ground (arith, i, g)))
        ];
      },
    )

pub none_counted : (xs : List (List ℕ)) → ((q : List ℕ) → count same_bytes q xs ≡ 0) → xs ≡ []
unfolding count
none_counted [] h = refl
none_counted (x ∷ xs) h = absurd (ground (arith, h x, same_text_refl x))

pub notify_nothing_lem :
    (reply : Option (List ℕ) → ℕ → Notice) (c : ℕ) (notify : Bool) (r : ℕ × PubSub)
    → notify_nothing reply c notify r
      ≡ (r.0, notified (notify && (r.0 == 0)) r.1 c (reply none (subscriptions (r.1.clients c))))
unfolding notify_nothing notified
notify_nothing_lem reply c notify r = elim (Bool-cases (notify && (r.0 == 0))) [
  | inl h ↦ rw h refl
  | inr h ↦ rw h refl
]

-- On a server where the two sides agree, and for any order in which the iterator lists the channels of
-- the client, `pubsubUnsubscribeAllChannels` does not fail an assertion; then the client has no
-- channel, and the two sides agree.
pub unsubscribe_all_channels_lem :
    (order : List (List ℕ)) (s : PubSub) (c : ℕ) (notify : Bool)
    → IsSubscribed s
    → ((q : List ℕ) → contains same_bytes q order ≡ contains same_bytes q (s.clients c).channels)
    → (n : ℕ) × (t : PubSub) × (unsubscribe_all_channels order s c notify ≡ some (n, t))
      × IsSubscribed t
      × ((t.clients c).channels ≡ [])
unfolding unsubscribe_all_channels
unsubscribe_all_channels_lem order s c notify w all =
    let r = unsubscribe_channels-Leaves order s c notify w in
    let f =
      notified-frame (notify && (r.0 == 0)) r.1 c
        (unsubscribed none (subscriptions (r.1.clients c))) r.3.valid in
    let none_left : (q : List ℕ) → count same_bytes q (r.1.clients c).channels ≡ 0 = λ q.
      elim (Bool-cases (contains same_bytes q (s.clients c).channels)) [
        | inl g ↦ r.3.gone q (all q ∙ g)
        | inr g ↦ omega (arith, r.3.fewer q, absent-count same_bytes q _ g)
      ] in
    (
      r.0,
      notified (notify && (r.0 == 0)) r.1 c _,
      rw (unsubscribe_all_channels, r.2)
          (ap some (notify_nothing_lem unsubscribed c notify (r.0, r.1))),
      f.0,
      f.1 ∙ none_counted _ none_left,
    )
