-- ===== src/PubSub/Patterns.antt =====
-- redis-2.6.14/src/pubsub.c: subscribing to patterns and leaving them.
use galery.Prelude.{
  ℕ, ◌+◌, ◌-◌, ◌≡◌, refl, sym, ◌∙◌, ap, none, some, List, [], ◌∷◌, ◌++◌, Bool, true, false, ◌&&◌,
  ◌==◌, if◌then◌else◌, arith, inl, inr, Bool-cases, same_bytes, same_bytes→eq,
}
use galery.PubSub.{
  PubSub, same_pattern, contains, remove_first, set_subscriber, subscriptions, subscribe_pattern,
  detach_pattern, unsubscribe_pattern, punsubscribed, unsubscribe_patterns,
  unsubscribe_all_patterns,
}
use galery.PubSub.Counts.{
  count, count-append, contains-count, absent-count, count-contains, count-remove_first,
  same_pattern_sound,
}
use galery.PubSub.Invariant.{IsSubscribed, notify_client-IsSubscribed}
use galery.PubSub.Leave.{
  Leaves, kept-gone, removed-gone, notified, notified-frame, none_counted, notify_nothing_lem,
}

-- The subscriptions of client `c` to `k` among those of client `j` to `q`.
pub count-pattern :
    (j c : ℕ) (q k : List ℕ) (ps : List (ℕ × List ℕ))
    → (count same_pattern (j, q) (ps ++ (c, k) ∷ [])
        ≡ count same_pattern (j, q) ps + (if (c == j) && same_bytes k q then 1 else 0))
      × (count same_pattern (j, q) (remove_first same_pattern (c, k) ps)
          ≡ count same_pattern (j, q) ps - (if (c == j) && same_bytes k q then 1 else 0))
count-pattern j c q k ps = (
  count-append same_pattern (j, q) ps (c, k),
  count-remove_first same_pattern same_pattern_sound (j, q) (c, k) ps,
)

abbrev joined : PubSub → ℕ → List ℕ → PubSub
joined s c k =
    set_subscriber (record s { patterns = s.patterns ++ (c, k) ∷ [] }) c
      (record (s.clients c) { patterns = (s.clients c).patterns ++ k ∷ [] })

joined-IsSubscribed :
    (s : PubSub) (c : ℕ) (k : List ℕ)
    → IsSubscribed s
    → contains same_bytes k (s.clients c).patterns ≡ false
    → IsSubscribed (joined s c k)
unfolding set_subscriber
joined-IsSubscribed s c k w h = record {
  channels = λ j q. ground (arith, w.channels j q);
  channel_once = λ j q. ground (arith, w.channel_once j q);
  nonempty = w.nonempty;
  patterns = λ j q. ground (
    arith,
    w.patterns j q,
    (count-pattern j c q k s.patterns).0,
    count-append same_bytes q (s.clients c).patterns k,
  );
  pattern_once = λ j q. elim (Bool-cases (same_bytes k q)) [
    | inl g ↦
        let z : count same_bytes q (s.clients c).patterns ≡ 0 =
          ap (λ y. count same_bytes y (s.clients c).patterns) (sym (same_bytes→eq k q g))
          ∙ absent-count same_bytes k _ h in
        ground (arith, w.pattern_once j q, z, g, count-append same_bytes q (s.clients c).patterns k)
    | inr g ↦
        ground (arith, w.pattern_once j q, g, count-append same_bytes q (s.clients c).patterns k)
  ];
}

-- `pubsubSubscribePattern` keeps the two sides in agreement.
pub subscribe_pattern-IsSubscribed :
    (s : PubSub) (c : ℕ) (k : List ℕ) → IsSubscribed s → IsSubscribed (subscribe_pattern s c k).1
unfolding subscribe_pattern
subscribe_pattern-IsSubscribed s c k w =
    elim (Bool-cases (contains same_bytes k (s.clients c).patterns)) [
      | inl h ↦ rw h (notify_client-IsSubscribed s c _ w)
      | inr h ↦ rw h (notify_client-IsSubscribed _ c _ (joined-IsSubscribed s c k w h))
    ]

abbrev left : PubSub → ℕ → List ℕ → PubSub
left s c k =
    set_subscriber (record s { patterns = remove_first same_pattern (c, k) s.patterns }) c
      (record (s.clients c) { patterns = remove_first same_bytes k (s.clients c).patterns })

left-IsSubscribed :
    (s : PubSub) (c : ℕ) (k : List ℕ)
    → IsSubscribed s
    → IsSubscribed (left s c k)
      × (((left s c k).clients c).patterns ≡ remove_first same_bytes k (s.clients c).patterns)
unfolding set_subscriber
left-IsSubscribed s c k w = (
  record {
    channels = λ j q. ground (arith, w.channels j q);
    channel_once = λ j q. ground (arith, w.channel_once j q);
    nonempty = w.nonempty;
    patterns = λ j q. ground (
      arith,
      w.patterns j q,
      (count-pattern j c q k s.patterns).1,
      count-remove_first same_bytes same_bytes→eq q k (s.clients c).patterns,
    );
    pattern_once = λ j q. ground (
      arith,
      w.pattern_once j q,
      count-remove_first same_bytes same_bytes→eq q k (s.clients c).patterns,
    );
  },
  ground arith,
)

-- On a server where the two sides agree, `pubsubUnsubscribePattern` does not delete a node that is not
-- there: it answers whether the client was subscribed, the client has left the pattern, and the two
-- sides agree.
pub unsubscribe_pattern-Leaves :
    (s : PubSub) (c : ℕ) (k : List ℕ) (notify : Bool)
    → IsSubscribed s
    → (t : PubSub) × (unsubscribe_pattern s c k notify
        ≡ some (contains same_bytes k (s.clients c).patterns, t))
      × Leaves s t c (k ∷ []) (λ x. x.patterns)
unfolding notified unsubscribe_pattern detach_pattern
unsubscribe_pattern-Leaves s c k notify w =
    elim (Bool-cases (contains same_bytes k (s.clients c).patterns)) [
      | inr h ↦
          let f =
            notified-frame notify s c (punsubscribed (some k) (subscriptions (s.clients c))) w in
          (
            _,
            rw (unsubscribe_pattern, h, h) refl,
            record {
              valid = f.0;
              fewer = λ q. omega (arith, ap (count same_bytes q) f.2);
              gone = λ q i. ap (count same_bytes q) f.2 ∙ kept-gone k q _ h i;
            },
          )
      | inl h ↦
          let there : contains same_pattern (c, k) s.patterns ≡ true =
            count-contains same_pattern (c, k) s.patterns
              (omega (arith, w.patterns c k, contains-count same_bytes k _ h)) in
          let d = left-IsSubscribed s c k w in
          let u = left s c k in
          let f =
            notified-frame notify u c (punsubscribed (some k) (subscriptions (u.clients c))) d.0 in
          let e = f.2 ∙ d.1 in
          (
            _,
            rw (unsubscribe_pattern, h, detach_pattern, there, h) refl,
            record {
              valid = f.0;
              fewer = λ q. omega (
                arith,
                ap (count same_bytes q) e,
                count-remove_first same_bytes same_bytes→eq q k (s.clients c).patterns,
              );
              gone = λ q i. ap (count same_bytes q) e ∙ removed-gone k q _ (w.pattern_once c q) i;
            },
          )
    ]

pub unsubscribe_patterns-Leaves :
    (ks : List (List ℕ)) (s : PubSub) (c : ℕ) (notify : Bool)
    → IsSubscribed s
    → (n : ℕ) × (t : PubSub) × (unsubscribe_patterns ks s c notify ≡ some (n, t))
      × Leaves s t c ks (λ x. x.patterns)
unfolding unsubscribe_patterns contains
unsubscribe_patterns-Leaves [] s c notify w = (
  0,
  s,
  refl,
  record { valid = w; fewer = λ q. omega arith; gone = λ q i. absurd (ground arith) },
)
unsubscribe_patterns-Leaves (k ∷ ks) s c notify w =
    let o = unsubscribe_pattern-Leaves s c k notify w in
    let r = unsubscribe_patterns-Leaves ks o.0 c notify o.2.valid in
    (
      (if contains same_bytes k (s.clients c).patterns then 1 else 0) + r.0,
      r.1,
      rw (unsubscribe_patterns, o.1, r.2) refl,
      record {
        valid = r.3.valid;
        fewer = λ q. omega (arith, r.3.fewer q, o.2.fewer q);
        gone = λ q i. elim (Bool-cases (contains same_bytes q ks)) [
          | inl g ↦ r.3.gone q g
          | inr g ↦ omega (arith, r.3.fewer q, o.2.gone q (ground (arith, i, g)))
        ];
      },
    )

-- On a server where the two sides agree, `pubsubUnsubscribeAllPatterns` does not delete a node that is
-- not there; then the client has no pattern, and the two sides agree.
pub unsubscribe_all_patterns_lem :
    (s : PubSub) (c : ℕ) (notify : Bool)
    → IsSubscribed s
    → (n : ℕ) × (t : PubSub) × (unsubscribe_all_patterns s c notify ≡ some (n, t))
      × IsSubscribed t
      × ((t.clients c).patterns ≡ [])
unfolding unsubscribe_all_patterns
unsubscribe_all_patterns_lem s c notify w =
    let r = unsubscribe_patterns-Leaves (s.clients c).patterns s c notify w in
    let f =
      notified-frame (notify && (r.0 == 0)) r.1 c
        (punsubscribed none (subscriptions (r.1.clients c))) r.3.valid in
    let none_left : (q : List ℕ) → count same_bytes q (r.1.clients c).patterns ≡ 0 = λ q.
      elim (Bool-cases (contains same_bytes q (s.clients c).patterns)) [
        | inl g ↦ r.3.gone q g
        | inr g ↦ omega (arith, r.3.fewer q, absent-count same_bytes q _ g)
      ] in
    (
      r.0,
      notified (notify && (r.0 == 0)) r.1 c _,
      rw (unsubscribe_all_patterns, r.2)
          (ap some (notify_nothing_lem punsubscribed c notify (r.0, r.1))),
      f.0,
      f.2 ∙ none_counted _ none_left,
    )
