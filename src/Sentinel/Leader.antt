-- ===== src/Sentinel/Leader.antt =====
-- redis-2.6.14/src/sentinel.c: which Sentinel is to perform the failover.
pub mod Votes
use galery.Prelude.{
  ℕ, zero, suc, ◌+◌, ◌/◌, Option, none, some, List, [], ◌∷◌, ◌++◌, Bool, true, false, not, ◌&&◌,
  ◌||◌, ltb, leb, if◌then◌else◌, length, same_bytes,
}
use galery.Sentinel.{Peer, Master, Env, sentinel_info_validity_time}

-- The run ids that the loop of `sentinelGetSubjectiveLeader` collects.
unfoldable pub eligible_runids : Env → List Peer → List (List ℕ)
eligible_runids e [] = []
eligible_runids e (p ∷ ps) =
    let rest = eligible_runids e ps in
    if ltb (p.last_avail_time + sentinel_info_validity_time) e.now
      || not p.can_failover
      || p.disconnected
    then rest
    else elim p.runid [ none ↦ rest | some r ↦ r ∷ rest ]

unfoldable pub get_subjective_leader : Env → Master → Option (List ℕ)
get_subjective_leader e m =
    let candidates =
      (if m.can_failover then e.server_runid ∷ [] else []) ++ eligible_runids e m.sentinels in
    elim candidates [
      | [] ↦ none
      | r ∷ rs ↦ elim (e.sort_runids e.strcasecmp (r ∷ rs)) [ [] ↦ none | l ∷ ls ↦ some l ]
    ]

-- `sentinelObjectiveLeaderIncr`; a new counter stands at the end.
unfoldable pub leader_incr : List (List ℕ × ℕ) → List ℕ → List (List ℕ × ℕ)
leader_incr [] r = (r, 1) ∷ []
leader_incr ((k, v) ∷ cs) r = if same_bytes k r then (k, v + 1) ∷ cs else (k, v) ∷ leader_incr cs r

-- The votes of the other Sentinels that count.
unfoldable pub peer_votes : Bool → List Peer → List (List ℕ)
peer_votes in_progress [] = []
peer_votes in_progress (p ∷ ps) =
    let rest = peer_votes in_progress ps in
    elim p.leader [
      | none ↦ rest
      | some l ↦ if not in_progress && not p.master_down then rest else l ∷ rest
    ]

unfoldable pub count_votes : List (List ℕ × ℕ) → List (List ℕ) → List (List ℕ × ℕ)
count_votes cs [] = cs
count_votes cs (v ∷ vs) = count_votes (leader_incr cs v) vs

-- The loop that looks for the most voted, with `max_votes` and `winner`.
unfoldable pub find_winner : List (List ℕ × ℕ) → ℕ → Option (List ℕ) → ℕ × Option (List ℕ)
find_winner [] max winner = (max, winner)
find_winner ((k, v) ∷ cs) max winner = elim (ltb max v) [
  | true ↦ find_winner cs v (some k)
  | false ↦ find_winner cs max winner
]

-- All votes, the own one first.
unfoldable pub ballots : Env → Master → List (List ℕ)
ballots e m =
    elim (get_subjective_leader e m) [ none ↦ [] | some v ↦ v ∷ [] ]
    ++ peer_votes m.failover_in_progress m.sentinels

-- `sentinelGetObjectiveLeader`, where the dict's iterator lists the counters in the order of insertion.
-- The assertion that the master is objectively down or in a failover is left out.
unfoldable pub get_objective_leader : Env → Master → Option (List ℕ)
get_objective_leader e m =
    let votes = ballots e m in
    let voters_quorum = length votes / 2 + 1 in
    let (max_votes, winner) = find_winner (count_votes [] votes) 0 none in
    if ltb max_votes voters_quorum || ltb max_votes m.quorum then none else winner
