-- ===== src/PubSub/Publish.antt =====
-- redis-2.6.14/src/pubsub.c: what the clients receive of a published message.
use mathlib.Core.List.{append_assoc, append-nil}
use galery.Prelude.{
  ℕ, zero, suc, ◌+◌, ◌≡◌, refl, sym, ◌∙◌, ap, List, [], ◌∷◌, ◌++◌, Bool, true, false, ◌&&◌, ◌==◌,
  if◌then◌else◌, arith, inl, inr, Bool-cases, same_bytes, length,
}
use galery.PubSub.{
  Notice, PubSub, contains, set_subscriber, notify_client, listeners, send_message, send_pmessage,
  publish_message, message, pmessage,
}
use galery.PubSub.Counts.{count, contains-count, absent-count}
use galery.PubSub.Invariant.{IsSubscribed}

-- The pattern messages of client `j`, in the order of the server's list.
unfoldable pub pattern_messages :
    (List ℕ → List ℕ → Bool) → List ℕ → List ℕ → List (ℕ × List ℕ) → ℕ → List Notice
pattern_messages string_match channel msg [] j = []
pattern_messages string_match channel msg (p ∷ ps) j =
    (if string_match p.1 channel && (p.0 == j) then pmessage p.1 channel msg ∷ [] else [])
    ++ pattern_messages string_match channel msg ps j

-- How many patterns match.
unfoldable pub matching : (List ℕ → List ℕ → Bool) → List ℕ → List (ℕ × List ℕ) → ℕ
matching string_match channel [] = 0
matching string_match channel (p ∷ ps) =
    (if string_match p.1 channel then 1 else 0) + matching string_match channel ps

-- As many copies of a message.
unfoldable pub copies : ℕ → Notice → List Notice
copies zero m = []
copies (suc n) m = m ∷ copies n m

notify_client-replies :
    (s : PubSub) (c j : ℕ) (m : Notice)
    → ((notify_client s c m).clients j).replies
      ≡ (s.clients j).replies ++ copies (if c == j then 1 else 0) m
unfolding notify_client set_subscriber copies
notify_client-replies s c j m = elim (Bool-cases (c == j)) [
  | inl h ↦ let e : c ≡ j = ground arith in let f : (j == j) ≡ true = ground arith in rw (e, f) refl
  | inr h ↦
      let f : (j == c) ≡ false = ground arith in rw (h, f) (sym (append-nil (s.clients j).replies))
]

copies-add :
    (b : Bool) (n : ℕ) (m : Notice)
    → copies (if b then 1 else 0) m ++ copies n m ≡ copies ((if b then 1 else 0) + n) m
unfolding copies
copies-add true n m = let e : 1 + n ≡ suc n = omega arith in rw e refl
copies-add false n m = let e : 0 + n ≡ n = omega arith in rw e refl

received :
    (old new : List Notice) (b : Bool) (n : ℕ) (m : Notice)
    → new ≡ old ++ copies (if b then 1 else 0) m
    → new ++ copies n m ≡ old ++ copies ((if b then 1 else 0) + n) m
received old new b n m e =
    ap (λ l. l ++ copies n m) e
    ∙ append_assoc old (copies (if b then 1 else 0) m) (copies n m)
    ∙ ap (λ l. old ++ l) (copies-add b n m)

send_message_lem :
    (channel msg : List ℕ) (cs : List ℕ) (s : PubSub) (j : ℕ)
    → (((send_message channel msg cs s).1.clients j).replies
        ≡ (s.clients j).replies ++ copies (count ◌==◌ j cs) (message channel msg))
      × ((send_message channel msg cs s).1.patterns ≡ s.patterns)
      × ((send_message channel msg cs s).0 ≡ length cs)
unfolding send_message notify_client set_subscriber count copies
send_message_lem channel msg [] s j = (sym (append-nil (s.clients j).replies), refl, refl)
send_message_lem channel msg (c ∷ cs) s j =
    let r = send_message_lem channel msg cs (notify_client s c (message channel msg)) j in
    (
      r.0
          ∙ received (s.clients j).replies _ (c == j) (count ◌==◌ j cs) _
              (notify_client-replies s c j (message channel msg)),
      r.1,
      ap suc r.2,
    )

-- A client listens to a channel at most once.
one_copy :
    (s : PubSub) (j : ℕ) (channel : List ℕ) (m : Notice)
    → IsSubscribed s
    → copies (count ◌==◌ j (listeners (s.channels channel))) m
      ≡ (if contains same_bytes channel (s.clients j).channels then m ∷ [] else [])
unfolding copies
one_copy s j channel m w = elim (Bool-cases (contains same_bytes channel (s.clients j).channels)) [
  | inl h ↦
      let e : count ◌==◌ j (listeners (s.channels channel)) ≡ 1 = omega (
        arith,
        w.channels j channel,
        w.channel_once j channel,
        contains-count same_bytes channel _ h,
      ) in
      rw (h, e) refl
  | inr h ↦
      let e : count ◌==◌ j (listeners (s.channels channel)) ≡ 0 =
        omega (arith, w.channels j channel, absent-count same_bytes channel _ h) in
      rw (h, e) refl
]

module _ (string_match : List ℕ → List ℕ → Bool) where
  abbrev hit_reply : List ℕ → List ℕ → ℕ × List ℕ → ℕ → List Notice
  hit_reply channel msg p j =
      if string_match p.1 channel && (p.0 == j) then pmessage p.1 channel msg ∷ [] else []

  hit_reply-added :
      (channel msg : List ℕ) (p : ℕ × List ℕ) (s : PubSub) (j : ℕ)
      → ((if string_match p.1 channel
            then notify_client s p.0 (pmessage p.1 channel msg)
            else s).clients
          j).replies
        ≡ (s.clients j).replies ++ hit_reply channel msg p j
  unfolding copies
  hit_reply-added channel msg p s j = elim (Bool-cases (string_match p.1 channel)) [
    | inl h ↦ rw h (elim (Bool-cases (p.0 == j)) [
      | inl g ↦ rw g (rw g at (notify_client-replies s p.0 j (pmessage p.1 channel msg)))
      | inr g ↦ rw g (rw g at (notify_client-replies s p.0 j (pmessage p.1 channel msg)))
    ])
    | inr h ↦ rw h (sym (append-nil (s.clients j).replies))
  ]

  send_pmessage_lem :
      (channel msg : List ℕ) (ps : List (ℕ × List ℕ)) (s : PubSub) (j : ℕ)
      → (((send_pmessage string_match channel msg ps s).1.clients j).replies
          ≡ (s.clients j).replies ++ pattern_messages string_match channel msg ps j)
        × ((send_pmessage string_match channel msg ps s).0 ≡ matching string_match channel ps)
  unfolding send_pmessage pattern_messages matching
  send_pmessage_lem channel msg [] s j = (sym (append-nil (s.clients j).replies), refl)
  send_pmessage_lem channel msg (p ∷ ps) s j =
      let hit = string_match p.1 channel in
      let s1 = if hit then notify_client s p.0 (pmessage p.1 channel msg) else s in
      let r = send_pmessage_lem channel msg ps s1 j in
      let rest = pattern_messages string_match channel msg ps j in
      (
        r.0
            ∙ ap (λ l. l ++ rest) (hit_reply-added channel msg p s j)
            ∙ append_assoc (s.clients j).replies (hit_reply channel msg p j) rest,
        ap (λ n. (if hit then 1 else 0) + n) r.1,
      )

  -- On a server where the two sides agree, a published message reaches a client once where it is
  -- subscribed to the channel, and then once for each of its patterns that match, in the order of the
  -- server's list; the result counts the listeners of the channel and the matching patterns.
  pub publish_message_lem :
      (channel msg : List ℕ) (s : PubSub) (j : ℕ)
      → IsSubscribed s
      → (((publish_message string_match channel msg s).1.clients j).replies
          ≡ (s.clients j).replies
            ++ ((if contains same_bytes channel (s.clients j).channels
                  then message channel msg ∷ []
                  else [])
                ++ pattern_messages string_match channel msg s.patterns j))
        × ((publish_message string_match channel msg s).0
            ≡ length (listeners (s.channels channel)) + matching string_match channel s.patterns)
  unfolding publish_message
  publish_message_lem channel msg s j w =
      let cs = listeners (s.channels channel) in
      let a = send_message_lem channel msg cs s j in
      let r = send_message channel msg cs s in
      let b = send_pmessage_lem channel msg r.1.patterns r.1 j in
      let rest = pattern_messages string_match channel msg r.1.patterns j in
      let old = (s.clients j).replies in
      (
        b.0
            ∙ ap (λ l. l ++ rest) a.0
            ∙ append_assoc old (copies (count ◌==◌ j cs) (message channel msg)) rest
            ∙ ap (λ l. old ++ (l ++ rest)) (one_copy s j channel (message channel msg) w)
            ∙ ap
                (λ ps.
                  old
                  ++ ((if contains same_bytes channel (s.clients j).channels
                        then message channel msg ∷ []
                        else [])
                      ++ pattern_messages string_match channel msg ps j))
                a.1,
        omega (arith, a.2, b.1 ∙ ap (matching string_match channel) a.1),
      )
