-- ===== src/Raft/Commit.antt =====
-- What src/coordinator/raft_node.rs promises of the log and of the commit index.
use minikv.Prelude.{
  zero, suc, ℕ, ◌+◌, ◌-◌, ◌%◌, ◌^◌, ◌<◌, ◌≤◌, ◌≡◌, ◌↔◌, refl, true, false, Option, List, [], ◌∷◌,
  ◌++◌, arith, ltb, ◌∙◌, ap, if◌then◌else◌, length, length-append,
}
use minikv.Bytes.{Bytes}
use minikv.Errors.{err, internal, ok}
use minikv.Raft.Node.{RaftNode, LogEntry, AppendRequest, AppendResponse, is_leader, last_index}
use minikv.Raft.Handlers.{handle_append_entries}
use minikv.Raft.Rounds.{next_index, open_replicate, close_replicate, apply_loop, acked, majority}

-- A request is accepted exactly if its term is not behind the node's and the log reaches its previous
-- index. An accepted request adds its entries at the end of the log, a refused one leaves the log and
-- the commit index as they are.
pub handle_append_entries-log :
    (req : AppendRequest) (n : RaftNode)
    → let r = handle_append_entries req n in
      ((r.1.success ≡ true) ↔ ((n.term ≤ req.term) × (req.prev_log_index ≤ length n.log)))
      × (r.0.log ≡ (if r.1.success then n.log ++ req.entries else n.log))
      × (r.1.success ≡ false → r.0.commit_index ≡ n.commit_index)
unfolding handle_append_entries
handle_append_entries-log req n = ground arith

accepted :
    (req : AppendRequest) (n : RaftNode)
    → n.term ≤ req.term
    → req.prev_log_index ≤ length n.log
    → ((handle_append_entries req n).1.success ≡ true)
      × ((handle_append_entries req n).0.log ≡ n.log ++ req.entries)
unfolding handle_append_entries
accepted req n t p = ground arith

-- The entries are numbered one after another from `k + 1`.
abbrev pub IsNumbered : ℕ → List LogEntry → Type 0
IsNumbered k [] = Unit {0}
IsNumbered k (e ∷ es) = (e.index ≡ suc k) × IsNumbered (suc k) es

pub IsNumbered-append :
    (k : ℕ) (l es : List LogEntry)
    → IsNumbered k l
    → IsNumbered (k + length l) es
    → IsNumbered k (l ++ es)
IsNumbered-append k [] es h g = ground (arith, g)
IsNumbered-append k (e ∷ l) es h g = (h.0, IsNumbered-append (suc k) l es h.1 (ground (arith, g)))

last_index-IsNumbered :
    (k : ℕ) (e : LogEntry) (l : List LogEntry)
    → IsNumbered k (e ∷ l)
    → last_index (e ∷ l) ≡ k + length (e ∷ l)
last_index-IsNumbered k e [] h = ground arith
last_index-IsNumbered k e (f ∷ l) h = ground (arith, last_index-IsNumbered (suc k) f l h.1)

apply_loop_lem :
    (rounds applied commit : ℕ)
    → commit ≤ rounds + applied
    → apply_loop rounds applied commit ≡ (if ltb applied commit then commit else applied)
unfolding apply_loop
apply_loop_lem zero applied commit h = ground arith
apply_loop_lem (suc r) applied commit h = ground (arith, apply_loop_lem r (applied + 1) commit)

-- For an entry that is not behind the last applied one: if a majority of the nodes accepts it, the
-- leader among them, the leader commits and applies up to it and reports success; else it reports an
-- error and stays as it is.
pub close_replicate_lem :
    (index : ℕ) (answers : List (Option AppendResponse)) (n : RaftNode)
    → n.last_applied ≤ index
    → let r = close_replicate index answers n in
      (majority (length answers) ≤ 1 + acked answers
        → (r.1 ≡ ok tt) × (r.0.commit_index ≡ index) × (r.0.last_applied ≡ index))
      × (1 + acked answers < majority (length answers)
          → (r.0 ≡ n) × (r.1 ≡ err (internal "Raft: no majority for commit")))
unfolding close_replicate
close_replicate_lem index answers n h =
    ground (arith, apply_loop_lem index n.last_applied index (omega arith))

next_index-IsNumbered :
    (l : List LogEntry) → IsNumbered 0 l → length l + 1 < 2 ^ 64 → next_index l ≡ length l + 1
next_index-IsNumbered [] h b = refl
next_index-IsNumbered (e ∷ l) h b = ground (arith, last_index-IsNumbered 0 e l h)

unfoldable pub new_entry : Bytes → RaftNode → LogEntry
new_entry payload n = record { term = n.term; index = length n.log + 1; payload = payload }

back_one : (k : ℕ) → k + 1 < 2 ^ 64 → (k + 1 + 2 ^ 64 - 1) % 2 ^ 64 ≡ k
back_one k b = omega arith

pub open_replicate_lem :
    (payload : Bytes) (n : RaftNode)
    → is_leader n ≡ true
    → IsNumbered 0 n.log
    → length n.log + 1 < 2 ^ 64
    → open_replicate payload n
      ≡ ok (
        record n { log = n.log ++ new_entry payload n ∷ [] },
        record {
          term = n.term;
          leader_id = n.node_id;
          prev_log_index = length n.log;
          prev_log_term = n.term;
          entries = new_entry payload n ∷ [];
          leader_commit = length n.log + 1;
        },
      )
unfolding open_replicate new_entry
open_replicate_lem payload n l h b =
    rw (l, next_index-IsNumbered n.log h b, back_one (length n.log) b) refl

-- A leader whose log is numbered from 1, with room for one more index, takes a new entry at the end of
-- its log, which stays numbered. A follower that has the same log and is not of a later term accepts
-- the request for it, and then has the log of the leader.
pub replicate_reaches_follower :
    (payload : Bytes) (n f : RaftNode)
    → is_leader n ≡ true
    → IsNumbered 0 n.log
    → length n.log + 1 < 2 ^ 64
    → f.term ≤ n.term
    → f.log ≡ n.log
    → (m : RaftNode) × (req : AppendRequest) × (open_replicate payload n ≡ ok (m, req))
      × IsNumbered 0 m.log
      × (length m.log ≡ length n.log + 1)
      × ((handle_append_entries req f).1.success ≡ true)
      × ((handle_append_entries req f).0.log ≡ m.log)
unfolding new_entry
replicate_reaches_follower payload n f l h b t same =
    let req : AppendRequest = record {
      term = n.term;
      leader_id = n.node_id;
      prev_log_index = length n.log;
      prev_log_term = n.term;
      entries = new_entry payload n ∷ [];
      leader_commit = length n.log + 1;
    } in
    let (accepts, grows) = accepted req f t (rw same (omega arith)) in
    (
      record n { log = n.log ++ new_entry payload n ∷ [] },
      req,
      open_replicate_lem payload n l h b,
      IsNumbered-append 0 n.log (new_entry payload n ∷ []) h (omega arith, tt),
      length-append n.log (new_entry payload n ∷ []),
      accepts,
      grows ∙ ap (λ l. l ++ new_entry payload n ∷ []) same,
    )

pub last_index_lem : (l : List LogEntry) → IsNumbered 0 l → last_index l ≡ length l
last_index_lem [] h = refl
last_index_lem (e ∷ l) h = ground (arith, last_index-IsNumbered 0 e l h)

-- When the log of a node, with the entries of the request behind it, is numbered from 1, and its commit
-- index lies within its log, the commit index stays within the log and does not go back, whether or
-- not the request is accepted.
pub handle_append_entries-commit_index :
    (req : AppendRequest) (n : RaftNode)
    → IsNumbered 0 (n.log ++ req.entries)
    → n.commit_index ≤ length n.log
    → let m = (handle_append_entries req n).0 in
      (n.commit_index ≤ m.commit_index) × (m.commit_index ≤ length m.log)
unfolding handle_append_entries
handle_append_entries-commit_index req n h c =
    ground (arith, last_index_lem (n.log ++ req.entries) h, length-append n.log req.entries)
