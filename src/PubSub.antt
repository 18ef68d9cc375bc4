-- ===== src/PubSub.antt =====
-- redis-2.6.14/src/pubsub.c: channels, patterns and the clients that listen to them.
pub mod Counts
pub mod Invariant
pub mod Leave
pub mod Patterns
pub mod Publish
pub mod Commands
use galery.Prelude.{
  ℕ, zero, suc, ◌+◌, Option, none, some, List, [], ◌∷◌, ◌++◌, Bool, true, false, not, ◌&&◌, ◌==◌,
  if◌then◌else◌, same_bytes, length,
}

-- The replies that the functions add, each for all its parts; the numbers count subscriptions.
pub data Notice : Type 0 where
  subscribed psubscribed : List ℕ → ℕ → Notice
  unsubscribed punsubscribed : Option (List ℕ) → ℕ → Notice
  message : List ℕ → List ℕ → Notice
  pmessage : List ℕ → List ℕ → List ℕ → Notice
  number : ℕ → Notice

-- The part of `redisClient` that is used here. `channels` are the keys of a dict.
pub record Subscriber : Type 0 where
  pub argv : List (List ℕ)
  pub channels : List (List ℕ)
  pub patterns : List (List ℕ)
  pub replies : List Notice

-- The part of `redisServer`: `channels` is a dict, with none where a channel has no entry, and a pattern
-- stands with the client that subscribed to it.
pub record PubSub : Type 0 where
  pub clients : ℕ → Subscriber
  pub channels : List ℕ → Option (List ℕ)
  pub patterns : List (ℕ × List ℕ)

-- `listMatchPubsubPattern`
abbrev pub same_pattern : ℕ × List ℕ → ℕ × List ℕ → Bool
same_pattern a b = (a.0 == b.0) && same_bytes a.1 b.1

module _ {A : Type 0} (same : A → A → Bool) where
  -- Whether `dictFind` or `listSearchKey` finds an entry, and the deletion of the first that it finds.
  unfoldable pub contains : A → List A → Bool
  contains a [] = false
  contains a (x ∷ xs) = if same x a then true else contains a xs

  unfoldable pub remove_first : A → List A → List A
  remove_first a [] = []
  remove_first a (x ∷ xs) = if same x a then xs else x ∷ remove_first a xs

unfoldable pub set_subscriber : PubSub → ℕ → Subscriber → PubSub
set_subscriber s c x = record s { clients = λ j. if j == c then x else s.clients j }

-- The calls of `addReply` for one reply.
unfoldable pub notify_client : PubSub → ℕ → Notice → PubSub
notify_client s c r =
    set_subscriber s c (record (s.clients c) { replies = (s.clients c).replies ++ r ∷ [] })

abbrev pub subscriptions : Subscriber → ℕ
subscriptions x = length x.channels + length x.patterns

abbrev pub listeners : Option (List ℕ) → List ℕ
listeners none = []
listeners (some cs) = cs

-- The dict's entry is deleted with the last listener.
abbrev pub entry_of : List ℕ → Option (List ℕ)
entry_of [] = none
entry_of (c ∷ cs) = some (c ∷ cs)

-- The block of `pubsubSubscribeChannel` under `dictAdd`.
unfoldable pub attach_channel : PubSub → ℕ → List ℕ → PubSub
attach_channel s c channel =
    set_subscriber
      (record s {
        channels = λ k.
            if same_bytes k channel
            then some (listeners (s.channels channel) ++ c ∷ [])
            else s.channels k;
      })
      c (record (s.clients c) { channels = (s.clients c).channels ++ channel ∷ [] })

unfoldable pub subscribe_channel : PubSub → ℕ → List ℕ → Bool × PubSub
subscribe_channel s c channel =
    let added = not (contains same_bytes channel (s.clients c).channels) in
    let s1 = if added then attach_channel s c channel else s in
    (added, notify_client s1 c (subscribed channel (subscriptions (s1.clients c))))

-- The block of `pubsubUnsubscribeChannel` under `dictDelete`, with none where an assertion fails.
unfoldable pub detach_channel : PubSub → ℕ → List ℕ → Option PubSub
detach_channel s c channel = elim (s.channels channel) [
  | none ↦ none
  | some cs ↦
      if contains ◌==◌ c cs
      then some (
          set_subscriber
            (record s {
              channels = λ k.
                  if same_bytes k channel then entry_of (remove_first ◌==◌ c cs) else s.channels k;
            })
            c
            (record (s.clients c) {
              channels = remove_first same_bytes channel (s.clients c).channels;
            }))
      else none
]

unfoldable pub unsubscribe_channel : PubSub → ℕ → List ℕ → Bool → Option (Bool × PubSub)
unsubscribe_channel s c channel notify =
    let found = contains same_bytes channel (s.clients c).channels in
    elim (if found then detach_channel s c channel else some s) [
      | none ↦ none
      | some s1 ↦ some (
        found,
        if notify
            then notify_client s1 c (unsubscribed (some channel) (subscriptions (s1.clients c)))
            else s1,
      )
    ]

unfoldable pub subscribe_pattern : PubSub → ℕ → List ℕ → Bool × PubSub
subscribe_pattern s c pattern =
    let x = s.clients c in
    let added = not (contains same_bytes pattern x.patterns) in
    let s1 =
      if added
      then set_subscriber (record s { patterns = s.patterns ++ (c, pattern) ∷ [] }) c
          (record x { patterns = x.patterns ++ pattern ∷ [] })
      else s in
    (added, notify_client s1 c (psubscribed pattern (subscriptions (s1.clients c))))

-- The block of `pubsubUnsubscribePattern` where the pattern is found, with none where `listDelNode` gets
-- NULL.
unfoldable pub detach_pattern : PubSub → ℕ → List ℕ → Option PubSub
detach_pattern s c pattern =
    if contains same_pattern (c, pattern) s.patterns
    then some (
        set_subscriber (record s { patterns = remove_first same_pattern (c, pattern) s.patterns }) c
          (record (s.clients c) {
            patterns = remove_first same_bytes pattern (s.clients c).patterns;
          }))
    else none

unfoldable pub unsubscribe_pattern : PubSub → ℕ → List ℕ → Bool → Option (Bool × PubSub)
unsubscribe_pattern s c pattern notify =
    let found = contains same_bytes pattern (s.clients c).patterns in
    elim (if found then detach_pattern s c pattern else some s) [
      | none ↦ none
      | some s1 ↦ some (
        found,
        if notify
            then notify_client s1 c (punsubscribed (some pattern) (subscriptions (s1.clients c)))
            else s1,
      )
    ]

-- The loop of `pubsubUnsubscribeAllChannels` over the channels in the order of the iterator.
unfoldable pub unsubscribe_channels : List (List ℕ) → PubSub → ℕ → Bool → Option (ℕ × PubSub)
unsubscribe_channels [] s c notify = some (0, s)
unsubscribe_channels (k ∷ ks) s c notify = elim (unsubscribe_channel s c k notify) [
  | none ↦ none
  | some r ↦ elim (unsubscribe_channels ks r.1 c notify) [
    | none ↦ none
    | some t ↦ some ((if r.0 then 1 else 0) + t.0, t.1)
  ]
]

-- The last reply of the two functions below.
unfoldable pub notify_nothing : (Option (List ℕ) → ℕ → Notice) → ℕ → Bool → ℕ × PubSub → ℕ × PubSub
notify_nothing reply c notify r =
    if notify && (r.0 == 0)
    then (r.0, notify_client r.1 c (reply none (subscriptions (r.1.clients c))))
    else r

-- `pubsubUnsubscribeAllChannels`, where `order` lists the client's channels as the dict's iterator does.
unfoldable pub unsubscribe_all_channels : List (List ℕ) → PubSub → ℕ → Bool → Option (ℕ × PubSub)
unsubscribe_all_channels order s c notify = elim (unsubscribe_channels order s c notify) [
  | none ↦ none
  | some r ↦ some (notify_nothing unsubscribed c notify r)
]

-- The loop of `pubsubUnsubscribeAllPatterns`; the iterator is past a node when that is deleted.
unfoldable pub unsubscribe_patterns : List (List ℕ) → PubSub → ℕ → Bool → Option (ℕ × PubSub)
unsubscribe_patterns [] s c notify = some (0, s)
unsubscribe_patterns (p ∷ ps) s c notify = elim (unsubscribe_pattern s c p notify) [
  | none ↦ none
  | some r ↦ elim (unsubscribe_patterns ps r.1 c notify) [
    | none ↦ none
    | some t ↦ some ((if r.0 then 1 else 0) + t.0, t.1)
  ]
]

unfoldable pub unsubscribe_all_patterns : PubSub → ℕ → Bool → Option (ℕ × PubSub)
unsubscribe_all_patterns s c notify =
    elim (unsubscribe_patterns (s.clients c).patterns s c notify) [
      | none ↦ none
      | some r ↦ some (notify_nothing punsubscribed c notify r)
    ]

-- The first loop of `pubsubPublishMessage`, with the number of receivers.
unfoldable pub send_message : List ℕ → List ℕ → List ℕ → PubSub → ℕ × PubSub
send_message channel msg [] s = (0, s)
send_message channel msg (c ∷ cs) s =
    let r = send_message channel msg cs (notify_client s c (message channel msg)) in (suc r.0, r.1)

module _ (string_match : List ℕ → List ℕ → Bool) where
  -- The second loop; `stringmatchlen` is an argument.
  unfoldable pub send_pmessage : List ℕ → List ℕ → List (ℕ × List ℕ) → PubSub → ℕ × PubSub
  send_pmessage channel msg [] s = (0, s)
  send_pmessage channel msg (p ∷ ps) s =
      let hit = string_match p.1 channel in
      let s1 = if hit then notify_client s p.0 (pmessage p.1 channel msg) else s in
      let r = send_pmessage channel msg ps s1 in ((if hit then 1 else 0) + r.0, r.1)

  unfoldable pub publish_message : List ℕ → List ℕ → PubSub → ℕ × PubSub
  publish_message channel msg s =
      let r = send_message channel msg (listeners (s.channels channel)) s in
      let t = send_pmessage channel msg r.1.patterns r.1 in (r.0 + t.0, t.1)

  -- `publishCommand`, for a client with two arguments.
  unfoldable pub publish_command : PubSub → ℕ → Option PubSub
  publish_command s c = elim (s.clients c).argv [
    | [] ↦ none
    | name ∷ args ↦ elim args [
      | [] ↦ none
      | channel ∷ more ↦ elim more [
        | [] ↦ none
        | msg ∷ others ↦
            let r = publish_message channel msg s in some (notify_client r.1 c (number r.0))
      ]
    ]
  ]

-- The arguments from the second on.
abbrev pub arguments_of : Subscriber → List (List ℕ)
arguments_of x = elim x.argv [ [] ↦ [] | name ∷ args ↦ args ]

unfoldable pub subscribe_each : List (List ℕ) → PubSub → ℕ → PubSub
subscribe_each [] s c = s
subscribe_each (k ∷ ks) s c = subscribe_each ks (subscribe_channel s c k).1 c

unfoldable pub subscribe_command : PubSub → ℕ → PubSub
subscribe_command s c = subscribe_each (arguments_of (s.clients c)) s c

unfoldable pub psubscribe_each : List (List ℕ) → PubSub → ℕ → PubSub
psubscribe_each [] s c = s
psubscribe_each (p ∷ ps) s c = psubscribe_each ps (subscribe_pattern s c p).1 c

unfoldable pub psubscribe_command : PubSub → ℕ → PubSub
psubscribe_command s c = psubscribe_each (arguments_of (s.clients c)) s c

-- The two commands, for the order in which the dict's iterator lists the client's channels.
unfoldable pub unsubscribe_command : List (List ℕ) → PubSub → ℕ → Option (ℕ × PubSub)
unsubscribe_command order s c = elim (arguments_of (s.clients c)) [
  | [] ↦ unsubscribe_all_channels order s c true
  | k ∷ ks ↦ unsubscribe_channels (k ∷ ks) s c true
]

unfoldable pub punsubscribe_command : PubSub → ℕ → Option (ℕ × PubSub)
punsubscribe_command s c = elim (arguments_of (s.clients c)) [
  | [] ↦ unsubscribe_all_patterns s c true
  | p ∷ ps ↦ unsubscribe_patterns (p ∷ ps) s c true
]
