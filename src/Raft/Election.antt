-- ===== src/Raft/Election.antt =====
-- Elections of src/coordinator/raft_node.rs in a cluster, as long as no node steps down or takes a snapshot
-- in between.
use minikv.Prelude.{
  ℕ, ◌+◌, ◌/◌, ◌%◌, ◌<◌, ◌≤◌, ◌≡◌, ◌≢◌, refl, sym, ap, ◌∙◌, arith, true, false, Bool-cases, inl,
  inr, Option, none, some, List, [], ◌∷◌, length, leb, leb→le, String, if◌then◌else◌,
}
use minikv.Raft.Node.{RaftNode, VoteRequest, VoteResponse}
use minikv.Raft.Handlers.{handle_request_vote}
use minikv.Raft.Rounds.{open_election, start_election, close_election, majority, granted}
use minikv.Raft.Voting.{
  HasVoted, Reaches, Reaches-HasVoted, handle_request_vote_granted, handle_request_vote_twice,
}

-- What a node answered to the requests of two candidates, in either order, with any steps before and in
-- between, where each call may fail.
pub data Heard (qa qb : VoteRequest) : Option VoteResponse → Option VoteResponse → Type 0 where
  first_a :
      (n m : RaftNode)
      → Reaches (handle_request_vote qa n).0 m
      → Heard qa qb (some (handle_request_vote qa n).1) (some (handle_request_vote qb m).1)
  first_b :
      (n m : RaftNode)
      → Reaches (handle_request_vote qb n).0 m
      → Heard qa qb (some (handle_request_vote qa m).1) (some (handle_request_vote qb n).1)
  only_a : (r : VoteResponse) → Heard qa qb (some r) none
  only_b : (r : VoteResponse) → Heard qa qb none (some r)
  neither : Heard qa qb none none

pub data AllHeard (qa qb : VoteRequest)
    : List (Option VoteResponse) → List (Option VoteResponse) → Type 0 where
  none_left : AllHeard qa qb [] []
  one_more :
      (a b : Option VoteResponse) (rs bs : List (Option VoteResponse))
      → Heard qa qb a b
      → AllHeard qa qb rs bs
      → AllHeard qa qb (a ∷ rs) (b ∷ bs)

abbrev grant : Option VoteResponse → ℕ
grant none = 0
grant (some r) = if r.vote_granted then 1 else 0

granted-grant :
    (o : Option VoteResponse) (os : List (Option VoteResponse))
    → granted (o ∷ os) ≡ grant o + granted os
unfolding granted
granted-grant none os = omega arith
granted-grant (some r) os = ground arith

-- A node that has voted refuses another candidate of the term.
refuses :
    (t : ℕ) (c : String) (req : VoteRequest) (n : RaftNode)
    → HasVoted t c n
    → req.term ≡ t
    → req.candidate_id ≢ c
    → (handle_request_vote req n).1.vote_granted ≡ false
refuses t c req n h same differ = elim (Bool-cases (handle_request_vote req n).1.vote_granted) [
  | inl is_yes ↦ absurd (differ (handle_request_vote_twice t c req n h same is_yes))
  | inr is_no ↦ is_no
]

voted_then_refuses :
    (q q2 : VoteRequest) (n m : RaftNode)
    → Reaches (handle_request_vote q n).0 m
    → q2.term ≡ q.term
    → q2.candidate_id ≢ q.candidate_id
    → grant (some (handle_request_vote q n).1) + grant (some (handle_request_vote q2 m).1) ≤ 1
voted_then_refuses q q2 n m r same differ =
    elim (Bool-cases (handle_request_vote q n).1.vote_granted) [
      | inl is_yes ↦
          let voted = handle_request_vote_granted q n is_yes in
          let refused =
            refuses q.term q.candidate_id q2 m
              (Reaches-HasVoted q.term q.candidate_id _ m r (inr (voted.1, voted.2))) same differ in
          ground (arith, is_yes, refused)
      | inr is_no ↦ ground (arith, is_no)
    ]

Heard-once :
    (qa qb : VoteRequest) (a b : Option VoteResponse)
    → Heard qa qb a b
    → qa.term ≡ qb.term
    → qa.candidate_id ≢ qb.candidate_id
    → grant a + grant b ≤ 1
Heard-once qa qb _ _ (first_a n m r) same differ =
    voted_then_refuses qa qb n m r (sym same) (λ e. differ (sym e))
Heard-once qa qb _ _ (first_b n m r) same differ =
    omega (arith, voted_then_refuses qb qa n m r same differ)
Heard-once qa qb _ _ (only_a r) same differ = ground arith
Heard-once qa qb _ _ (only_b r) same differ = ground arith
Heard-once qa qb _ _ neither same differ = omega arith

granted_together :
    (qa qb : VoteRequest) (rs bs : List (Option VoteResponse))
    → AllHeard qa qb rs bs
    → qa.term ≡ qb.term
    → qa.candidate_id ≢ qb.candidate_id
    → (granted rs + granted bs ≤ length rs) × (length rs ≡ length bs)
unfolding granted
granted_together qa qb _ _ none_left same differ = (omega arith, refl)
granted_together qa qb _ _ (one_more a b rs bs h hs) same differ =
    let (sum, sizes) = granted_together qa qb rs bs hs same differ in
    (
      omega
          (arith, granted-grant a rs, granted-grant b bs, Heard-once qa qb a b h same differ, sum),
      omega (arith, sizes),
    )

own_vote :
    (n m : RaftNode)
    → Reaches (open_election n).0 m
    → HasVoted (open_election n).2.term (open_election n).2.candidate_id m
unfolding open_election start_election
own_vote n m r = Reaches-HasVoted _ _ _ m r (inr (refl, refl))

result_lem :
    (t : ℕ) (os : List (Option VoteResponse)) (n : RaftNode)
    → (close_election t os n).1 ≡ leb (majority (length os)) (1 + granted os)
unfolding close_election
result_lem t os n = ground arith

refused_first :
    (t : ℕ) (r : VoteResponse) (os : List (Option VoteResponse)) (n : RaftNode)
    → r.vote_granted ≡ false
    → (close_election t (some r ∷ os) n).1 ≡ leb (majority (1 + length os)) (1 + granted os)
unfolding granted
refused_first t r os n refused = rw (result_lem t (some r ∷ os) n, refused) ground arith

not_both :
    (peers x y : ℕ)
    → peers % 2 ≡ 0
    → x + y < peers
    → leb (majority peers) (1 + x) ≡ true
    → leb (majority peers) (1 + y) ≡ false
unfolding majority
not_both peers x y odd sum wins = elim (Bool-cases (leb ((peers + 1 + 1) / 2) (1 + y))) [
  | inl is_yes ↦ absurd (omega (arith, leb→le _ _ wins, leb→le _ _ is_yes))
  | inr is_no ↦ is_no
]

-- Election safety in a cluster of an odd number of nodes. Two of them, of different names, begin an
-- election of the same term and ask each other and all other nodes, which answer by handle_request_vote
-- in any order, with any steps of Voting in between. If one of the two wins, the other does not.
pub one_leader_per_term :
    (a b am bm na nb : RaftNode) (rs bs : List (Option VoteResponse))
    → (open_election a).2.term ≡ (open_election b).2.term
    → a.node_id ≢ b.node_id
    → Reaches (open_election a).0 am
    → Reaches (open_election b).0 bm
    → AllHeard (open_election a).2 (open_election b).2 rs bs
    → (1 + length rs) % 2 ≡ 0
    → (close_election
        (open_election a).1
        (some (handle_request_vote (open_election a).2 bm).1 ∷ rs)
        na).1
      ≡ true
    → (close_election
        (open_election b).1
        (some (handle_request_vote (open_election b).2 am).1 ∷ bs)
        nb).1
      ≡ false
unfolding open_election start_election
one_leader_per_term a b am bm na nb rs bs same differ ra rb heard odd wins =
    let (sum, sizes) = granted_together _ _ rs bs heard same differ in
    let b_refuses = refuses _ _ (open_election a).2 bm (own_vote b bm rb) same differ in
    let a_refuses =
      refuses _ _ (open_election b).2 am (own_vote a am ra) (sym same) (λ e. differ (sym e)) in
    refused_first _ _ bs nb a_refuses
    ∙ ap (λ k. leb (majority (1 + k)) (1 + granted bs)) (sym sizes)
    ∙ not_both (1 + length rs) (granted rs) (granted bs) odd (omega (arith, sum))
        (sym (refused_first _ _ rs na b_refuses) ∙ wins)
