-- ===== src/Raft/Tests.antt =====
-- A cluster of src/coordinator/raft_node.rs on concrete nodes and messages.
use minikv.Prelude.{
  List, replicate, string_eq, ℕ, ◌≡◌, ◌≢◌, refl, arith, true, false, some, none, [], ◌∷◌, length,
  String,
}
use minikv.Errors.{err, internal, ok}
use minikv.Raft.Node.{is_leader, RaftNode, LogEntry, VoteRequest, AppendRequest, leader, follower}
use minikv.Raft.Handlers.{handle_request_vote, handle_append_entries, cast_vote, free_for}
use minikv.Raft.Rounds.{
  open_replicate, close_replicate, open_election, close_election, become_leader, start_election,
  majority, granted,
}
use minikv.Raft.Voting.{one_vote_per_term, here, next, lead}
use minikv.Raft.Commit.{IsNumbered, replicate_reaches_follower}
use minikv.Raft.Service.{request_vote, append_entries, split_brain, commits_alone}
use minikv.Raft.Election.{one_leader_per_term, one_more, none_left, first_a}
use minikv.Raft.Faults.{commits_without_majority, two_leaders, two_votes}

abbrev node : String → RaftNode
node name = record {
  node_id = name;
  role = follower;
  term = 3;
  voted_for = none;
  leader_id = none;
  log = record { term = 3; index = 1; payload = [] } ∷ [];
  peers = [];
  commit_index = 0;
  last_applied = 0;
  snapshot = none;
}

abbrev leading : RaftNode
leading = record (node "a") { role = leader }

abbrev ask : ℕ → String → VoteRequest
ask term name = record { term = term; candidate_id = name; last_log_index = 0; last_log_term = 0 }

abbrev entries_request : AppendRequest
entries_request = record {
  term = 4;
  leader_id = "a";
  prev_log_index = 1;
  prev_log_term = 3;
  entries = record { term = 4; index = 2; payload = [] } ∷ [];
  leader_commit = 2;
}

a_not_b : (node "a").node_id ≢ (node "b").node_id
a_not_b e = ground (arith, (string_eq.eqb_iff "a" "b").1 e)

granted_b : (handle_request_vote (ask 4 "b") (node "a")).1.vote_granted ≡ true
unfolding handle_request_vote cast_vote free_for
granted_b = refl

one_vote_per_term_example : (ask 4 "b").candidate_id ≡ (ask 4 "b").candidate_id
unfolding handle_request_vote cast_vote free_for become_leader
one_vote_per_term_example =
    one_vote_per_term (ask 4 "b") (ask 4 "b") (node "a") _ granted_b (next _ _ _ (lead _) (here _))
      refl refl

replicate_reaches_follower_example :
    (m : RaftNode) × (req : AppendRequest) × (open_replicate [] leading ≡ ok (m, req))
    × IsNumbered 0 m.log
    × (length m.log ≡ 2)
    × ((handle_append_entries req (node "b")).1.success ≡ true)
    × ((handle_append_entries req (node "b")).0.log ≡ m.log)
unfolding is_leader
replicate_reaches_follower_example =
    replicate_reaches_follower [] leading (node "b") refl (refl, tt) (omega arith) (omega arith)
      refl

two_leaders_example :
    let (a1, ta, qa) = open_election (node "a") in
    let (b1, tb, qb) = open_election (node "b") in
    let (b2, rb) = handle_request_vote qa b1 in
    let (a2, ra) = handle_request_vote qb a1 in
    let (a3, a_leads) = close_election ta (some rb ∷ []) a2 in
    let (b3, b_leads) = close_election tb (some ra ∷ []) b2 in
    (rb.vote_granted ≡ false)
    × (ra.vote_granted ≡ false)
    × (a3.role ≡ leader)
    × (b3.role ≡ leader)
    × (a3.term ≡ b3.term)
two_leaders_example = two_leaders (node "a") (node "b") refl a_not_b

two_votes_example :
    let (n1, r1) = handle_request_vote (ask 5 "b") (node "a") in
    let (n2, wins) = close_election 4 (none ∷ none ∷ []) n1 in
    let (n3, r2) = handle_request_vote (ask 5 "c") n2 in
    (r1.vote_granted ≡ true) × (r2.vote_granted ≡ true)
two_votes_example = two_votes (node "a") 4 (ask 5 "b") (ask 5 "c") (omega arith) (omega arith) refl

commits_without_majority_example :
    (m : RaftNode) × (req : AppendRequest) × (open_replicate [] leading ≡ ok (m, req))
    × ((handle_append_entries req (node "b")).0.commit_index ≡ 2)
    × (close_replicate 2 (none ∷ none ∷ []) m ≡ (m, err (internal "Raft: no majority for commit")))
    × (m.commit_index ≡ 0)
unfolding is_leader
commits_without_majority_example =
    commits_without_majority [] leading (node "b") refl (refl, tt) (omega arith) (omega arith) refl
      (omega arith)

split_brain_example :
    let (a1, ta, qa) = open_election (node "a") in
    let (b1, tb, qb) = open_election (node "b") in
    let (a2, a_leads) = close_election ta (replicate 4 (some (request_vote qa))) a1 in
    let (b2, b_leads) = close_election tb (replicate 4 (some (request_vote qb))) b1 in
    (a_leads ≡ true)
    × (b_leads ≡ true)
    × (a2.role ≡ leader)
    × (b2.role ≡ leader)
    × (a2.term ≡ b2.term)
    × (a2.node_id ≢ b2.node_id)
split_brain_example = split_brain 4 (node "a") (node "b") refl (omega arith) a_not_b

commits_alone_example :
    (m : RaftNode) × (req : AppendRequest) × (open_replicate [] leading ≡ ok (m, req))
    × (let (after, result) = close_replicate 2 (replicate 4 (some (append_entries req))) m in
        (result ≡ ok tt) × (after.commit_index ≡ 2) × (length after.log ≡ 2))
    × ((others : List LogEntry)
        → append_entries (record req { entries = others }) ≡ append_entries req)
unfolding is_leader
commits_alone_example = commits_alone 4 [] leading refl (refl, tt) (omega arith) (omega arith)

abbrev first_of_three : RaftNode × ℕ × VoteRequest
first_of_three = open_election (node "a")

abbrev second_of_three : RaftNode × ℕ × VoteRequest
second_of_three = open_election (node "b")

abbrev asked_once : RaftNode
asked_once = (handle_request_vote first_of_three.2 (node "c")).0

one_leader_per_term_example :
    (close_election second_of_three.1
      (some (handle_request_vote second_of_three.2 first_of_three.0).1
        ∷ some (handle_request_vote second_of_three.2 asked_once).1
        ∷ [])
      second_of_three.0).1
    ≡ false
unfolding close_election majority granted open_election start_election handle_request_vote cast_vote
    free_for
one_leader_per_term_example =
    one_leader_per_term (node "a") (node "b") _ _ first_of_three.0 second_of_three.0 _ _ refl
      a_not_b (here _) (here _) (one_more _ _ _ _ (first_a (node "c") _ (here _)) none_left) refl
      refl
