-- ===== src/PubSub/Commands.antt =====
-- redis-2.6.14/src/pubsub.c: SUBSCRIBE, PSUBSCRIBE, UNSUBSCRIBE and PUNSUBSCRIBE.
use galery.Prelude.{ℕ, ◌≡◌, some, List, [], ◌∷◌, Bool, true, same_bytes}
use galery.PubSub.{
  PubSub, contains, arguments_of, subscribe_each, psubscribe_each, subscribe_command,
  psubscribe_command, unsubscribe_command, punsubscribe_command, unsubscribe_channels,
  unsubscribe_patterns, unsubscribe_all_channels, unsubscribe_all_patterns,
}
use galery.PubSub.Invariant.{IsSubscribed, subscribe_channel-IsSubscribed}
use galery.PubSub.Leave.{unsubscribe_channels-Leaves, unsubscribe_all_channels_lem}
use galery.PubSub.Patterns.{
  subscribe_pattern-IsSubscribed, unsubscribe_patterns-Leaves, unsubscribe_all_patterns_lem,
}

subscribe_each-IsSubscribed :
    (ks : List (List ℕ)) (s : PubSub) (c : ℕ)
    → IsSubscribed s
    → IsSubscribed (subscribe_each ks s c)
unfolding subscribe_each
subscribe_each-IsSubscribed [] s c w = w
subscribe_each-IsSubscribed (k ∷ ks) s c w =
    subscribe_each-IsSubscribed ks _ c (subscribe_channel-IsSubscribed s c k w)

psubscribe_each-IsSubscribed :
    (ks : List (List ℕ)) (s : PubSub) (c : ℕ)
    → IsSubscribed s
    → IsSubscribed (psubscribe_each ks s c)
unfolding psubscribe_each
psubscribe_each-IsSubscribed [] s c w = w
psubscribe_each-IsSubscribed (k ∷ ks) s c w =
    psubscribe_each-IsSubscribed ks _ c (subscribe_pattern-IsSubscribed s c k w)

-- SUBSCRIBE and PSUBSCRIBE, with any arguments, keep the subscriptions of the clients and the listeners
-- of the server in agreement.
pub subscribe_command-IsSubscribed :
    (s : PubSub) (c : ℕ)
    → IsSubscribed s
    → IsSubscribed (subscribe_command s c) × IsSubscribed (psubscribe_command s c)
unfolding subscribe_command psubscribe_command
subscribe_command-IsSubscribed s c w =
    (subscribe_each-IsSubscribed _ s c w, psubscribe_each-IsSubscribed _ s c w)

-- On a server where the two sides agree, UNSUBSCRIBE and PUNSUBSCRIBE, with any arguments and for any
-- order in which the iterator lists the channels of the client, fail no assertion and delete no
-- node that is not there, and the two sides agree again.
pub unsubscribe_command-IsSubscribed :
    (order : List (List ℕ)) (s : PubSub) (c : ℕ)
    → IsSubscribed s
    → ((q : List ℕ) → contains same_bytes q order ≡ contains same_bytes q (s.clients c).channels)
    → ((n : ℕ) × (t : PubSub) × (unsubscribe_command order s c ≡ some (n, t)) × IsSubscribed t)
      × ((n : ℕ) × (t : PubSub) × (punsubscribe_command s c ≡ some (n, t)) × IsSubscribed t)
unfolding unsubscribe_command punsubscribe_command
unsubscribe_command-IsSubscribed order s c w all = go (arguments_of (s.clients c))
  where
    go :
        (ks : List (List ℕ))
        → ((n : ℕ) × (t : PubSub) × (elim ks [
          | [] ↦ unsubscribe_all_channels order s c true
          | x ∷ xs ↦ unsubscribe_channels (x ∷ xs) s c true
        ]
              ≡ some (n, t))
            × IsSubscribed t)
          × ((n : ℕ) × (t : PubSub) × (elim ks [
            | [] ↦ unsubscribe_all_patterns s c true
            | x ∷ xs ↦ unsubscribe_patterns (x ∷ xs) s c true
          ]
                ≡ some (n, t))
              × IsSubscribed t)
    go [] =
        let a = unsubscribe_all_channels_lem order s c true w all in
        let b = unsubscribe_all_patterns_lem s c true w in
        ((a.0, a.1, a.2, a.3), (b.0, b.1, b.2, b.3))
    go (k ∷ ks) =
        let a = unsubscribe_channels-Leaves (k ∷ ks) s c true w in
        let b = unsubscribe_patterns-Leaves (k ∷ ks) s c true w in
        ((a.0, a.1, a.2, a.3.valid), (b.0, b.1, b.2, b.3.valid))

-- On a server where the two sides agree, and for any order in which the iterator lists the channels of
-- the client, pubsubUnsubscribeAllChannels and then pubsubUnsubscribeAllPatterns, as a client is freed,
-- fail no assertion and leave the client no channel, resp. no pattern, with the two sides in agreement.
pub unsubscribe_all_lem :
    (order : List (List ℕ)) (s : PubSub) (c : ℕ) (notify : Bool)
    → IsSubscribed s
    → ((q : List ℕ) → contains same_bytes q order ≡ contains same_bytes q (s.clients c).channels)
    → (n : ℕ) × (t : PubSub) × (unsubscribe_all_channels order s c notify ≡ some (n, t))
      × ((t.clients c).channels ≡ [])
      × (m : ℕ) × (u : PubSub) × (unsubscribe_all_patterns t c notify ≡ some (m, u))
      × ((u.clients c).patterns ≡ [])
      × IsSubscribed u
unsubscribe_all_lem order s c notify w all =
    let a = unsubscribe_all_channels_lem order s c notify w all in
    let b = unsubscribe_all_patterns_lem a.1 c notify a.3 in
    (a.0, a.1, a.2, a.4, b.0, b.1, b.2, b.4, b.3)
