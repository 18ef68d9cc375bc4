-- ===== src/Examples/Channels.antt =====
-- redis-2.6.14/src/pubsub.c: a client that subscribes to a channel and a pattern.
use galery.Prelude.{
  ℕ, ◌+◌, ◌≡◌, refl, none, some, List, [], ◌∷◌, ◌++◌, false, arith, same_bytes, if◌then◌else◌,
  length,
}
use galery.PubSub.{
  PubSub, message, contains, listeners, subscribe_channel, subscribe_pattern, subscribe_command,
  psubscribe_command, unsubscribe_command, punsubscribe_command, unsubscribe_all_channels,
  unsubscribe_all_patterns, publish_message,
}
use galery.PubSub.Counts.{count}
use galery.PubSub.Invariant.{IsSubscribed, subscribe_channel-IsSubscribed}
use galery.PubSub.Patterns.{subscribe_pattern-IsSubscribed}
use galery.PubSub.Publish.{pattern_messages, matching, publish_message_lem}
use galery.PubSub.Commands.{
  subscribe_command-IsSubscribed, unsubscribe_command-IsSubscribed, unsubscribe_all_lem,
}

abbrev news : List ℕ
news = b'n' ∷ []

abbrev quiet : PubSub
quiet = record {
  clients =
      λ j. record { argv = (b's' ∷ []) ∷ news ∷ []; channels = []; patterns = []; replies = [] };
  channels = λ k. none;
  patterns = [];
}

quiet-IsSubscribed : IsSubscribed quiet
unfolding count
quiet-IsSubscribed = record {
  channels = λ j k. refl;
  channel_once = λ j k. omega arith;
  nonempty = λ k e. cc;
  patterns = λ j p. refl;
  pattern_once = λ j p. omega arith;
}

abbrev listening : PubSub
listening = (subscribe_channel quiet 3 news).1

abbrev both : PubSub
both = (subscribe_pattern listening 3 news).1

both-IsSubscribed : IsSubscribed both
both-IsSubscribed =
    subscribe_pattern-IsSubscribed listening 3 news
      (subscribe_channel-IsSubscribed quiet 3 news quiet-IsSubscribed)

subscribe_command-IsSubscribed_example :
    IsSubscribed (subscribe_command quiet 3) × IsSubscribed (psubscribe_command quiet 3)
subscribe_command-IsSubscribed_example = subscribe_command-IsSubscribed quiet 3 quiet-IsSubscribed

same_order :
    (q : List ℕ)
    → contains same_bytes q (both.clients 3).channels
      ≡ contains same_bytes q (both.clients 3).channels
same_order q = refl

unsubscribe_command-IsSubscribed_example :
    ((n : ℕ) × (t : PubSub) × (unsubscribe_command (both.clients 3).channels both 3 ≡ some (n, t))
      × IsSubscribed t)
    × ((n : ℕ) × (t : PubSub) × (punsubscribe_command both 3 ≡ some (n, t)) × IsSubscribed t)
unsubscribe_command-IsSubscribed_example =
    unsubscribe_command-IsSubscribed (both.clients 3).channels both 3 both-IsSubscribed same_order

unsubscribe_all_lem_example :
    (n : ℕ) × (t : PubSub) × (unsubscribe_all_channels (both.clients 3).channels both 3 false
      ≡ some (n, t))
    × ((t.clients 3).channels ≡ [])
    × (m : ℕ) × (u : PubSub) × (unsubscribe_all_patterns t 3 false ≡ some (m, u))
    × ((u.clients 3).patterns ≡ [])
    × IsSubscribed u
unsubscribe_all_lem_example =
    unsubscribe_all_lem (both.clients 3).channels both 3 false both-IsSubscribed same_order

publish_message_lem_example :
    (((publish_message same_bytes news news both).1.clients 3).replies
      ≡ (both.clients 3).replies
        ++ ((if contains same_bytes news (both.clients 3).channels
              then message news news ∷ []
              else [])
            ++ pattern_messages same_bytes news news both.patterns 3))
    × ((publish_message same_bytes news news both).0
        ≡ length (listeners (both.channels news)) + matching same_bytes news both.patterns)
publish_message_lem_example = publish_message_lem same_bytes news news both 3 both-IsSubscribed
