-- ===== src/Wal/Reopen.antt =====
-- Opening a log again: the number after the highest one, and what an append has made durable.
use minikv.Prelude.{
  ◌-◌, ℕ, zero, suc, ◌+◌, ◌%◌, ◌^◌, ◌<◌, ◌≤◌, ◌≡◌, refl, sym, ap, ◌∙◌, inl, inr, some, none, Option,
  List, [], ◌∷◌, ◌++◌, arith, length, max, All, append_assoc, append-nil,
}
use minikv.Errors.{Result, ok}
use minikv.Bytes.{Bytes}
use minikv.External.{Crc32}
use minikv.Disk.{BufWriter, stream, flush, sync_all}
use minikv.Wal.{
  replay, Wal, WalEntry, WalSyncPolicy, put, always, interval, never, find_last_loop,
  find_last_sequence, open_wal, append_put, truncate, maybe_sync, read_entry,
}
use minikv.Wal.Format.{entry_bytes, IsStorable, FitsOp, read_entry-entry_bytes}
use minikv.Wal.Reading.{read_entry_shorter}
use minikv.Wal.Replay.{replay-log_bytes, run, log_bytes, IsEnd, end_cases}
use minikv.Wal.Crash.{empty-IsEnd}
use minikv.Wal.Log.{All-below, IsLogOf, append_put-IsLogOf}

module _ (crc : Crc32) where
  -- The highest number in a log, from one that was seen before.
  abbrev pub highest : Option ℕ → List WalEntry → Option ℕ
  highest m [] = m
  highest m (e ∷ es) = highest (some (max (elim m [ none ↦ 0 | some k ↦ k ]) e.sequence)) es

  find_last_loop-log :
      (es : List WalEntry) (tail : Bytes) (fuel : ℕ) (m : Option ℕ)
      → All IsStorable es
      → IsEnd crc tail
      → length (log_bytes crc es ++ tail) < fuel
      → find_last_loop crc fuel m (log_bytes crc es ++ tail) ≡ some (highest m es)
  unfolding find_last_loop
  find_last_loop-log es tail zero m h t lt = absurd (omega arith)
  find_last_loop-log [] tail (suc fuel) m h t lt = elim (end_cases crc tail t) [
    | inl (r, e) ↦ rw (e, find_last_loop)
    | inr (x, e) ↦ rw (e, find_last_loop)
  ]
  find_last_loop-log (e ∷ es) tail (suc fuel) m (he, hs) t lt =
      rw (first, find_last_loop)
        (find_last_loop-log es tail fuel _ hs t
          (omega (arith, read_entry_shorter crc _ e rest first)))
    where
      rest : Bytes
      rest = log_bytes crc es ++ tail

      first : read_entry crc (log_bytes crc (e ∷ es) ++ tail) ≡ ok (some e, rest)
      first =
          rw (append_assoc (entry_bytes crc e) (log_bytes crc es) tail)
            (read_entry-entry_bytes crc e rest he)

  -- `highest` bounds what it has seen, and keeps any bound of it.
  highest-some :
      (k n : ℕ) (es : List WalEntry)
      → k < n
      → All (λ e. e.sequence < n) es
      → (m : ℕ) × (highest (some k) es ≡ some m)
        × (m < n)
        × (k ≤ m)
        × All (λ e. e.sequence < m + 1) es
  highest-some k n [] lt h = (k, refl, lt, omega arith, tt)
  highest-some k n (e ∷ es) lt (he, hs) =
      let (m, p, q, r, s) = highest-some (max k e.sequence) n es (omega arith) hs in
      (m, p, q, omega arith, (omega arith, s))

  -- The number after the highest one.
  unfoldable pub next_of : Option ℕ → ℕ
  next_of none = 0
  next_of (some m) = (m + 1) % 2 ^ 64

  pub find_last_sequence-log :
      (es : List WalEntry) (tail : Bytes)
      → All IsStorable es
      → IsEnd crc tail
      → find_last_sequence crc (log_bytes crc es ++ tail) ≡ some (next_of (highest none es))
  unfolding find_last_sequence next_of
  find_last_sequence-log es tail h t =
      rw
        (
          find_last_loop-log es tail (length (log_bytes crc es ++ tail) + 1) none h t (omega arith),
          find_last_sequence,
        )
        (go (highest none es))
    where
      go :
          (m : Option ℕ)
          → elim m [ none ↦ some 0 | some m ↦ some ((m + 1) % 2 ^ 64) ] ≡ some (next_of m)
      go none = refl
      go (some m) = refl

  next_of-highest :
      (n : ℕ) (es : List WalEntry)
      → n < 2 ^ 64
      → All (λ e. e.sequence + 1 < n) es
      → All (λ e. e.sequence < next_of (highest none es)) es
  unfolding next_of
  next_of-highest n [] lt h = tt
  next_of-highest n (e ∷ es) lt (he, hs) =
      let (m, p, q, r, s) =
        highest-some (max 0 e.sequence) (n - 1) es (omega arith) (weaken es hs) in
      let next : next_of (highest none (e ∷ es)) ≡ m + 1 = rw (p, next_of) (omega arith) in
      (omega (arith, next), All-below crc (m + 1) _ es (omega (arith, next)) s)
    where
      weaken :
          (es : List WalEntry) → All (λ e. e.sequence + 1 < n) es → All (λ e. e.sequence < n - 1) es
      weaken [] k = tt
      weaken (e ∷ es) (k, ks) = (omega arith, weaken es ks)

  -- Opening a log of whole entries that the format can hold, each with a number at least two below
  -- the last one of 64 bits, gives a log of the same entries, which goes on with a number above all
  -- of theirs.
  pub open_wal-IsLogOf :
      (policy : WalSyncPolicy) (es : List WalEntry)
      → All IsStorable es
      → All (λ e. e.sequence + 1 < 2 ^ 64 - 1) es
      → (w : Wal) × (open_wal crc policy (log_bytes crc es) ≡ some w) × IsLogOf crc es w
  unfolding open_wal
  open_wal-IsLogOf policy es h room = (
    record {
      writer = record {
        file = record { content = log_bytes crc es; synced = log_bytes crc es };
        buffer = [];
      };
      next_sequence = next_of (highest none es);
      sync_policy = policy;
    },
    rw (rw append-nil at (find_last_sequence-log es [] h (empty-IsEnd crc)), open_wal),
    record {
      content = append-nil (log_bytes crc es);
      storable = h;
      below = next_of-highest _ es (omega arith) room;
    },
  )

  maybe_sync-always :
      (p : WalSyncPolicy) (w : BufWriter)
      → p ≡ always
      → (maybe_sync crc p w).file.synced ≡ stream (maybe_sync crc p w)
  unfolding maybe_sync sync_all flush
  maybe_sync-always always w h = sym (append-nil _)
  maybe_sync-always interval w h = absurd cc
  maybe_sync-always never w h = absurd cc

  -- With the policy Always what an append returns from is on the disk: for a log of these entries,
  -- with room for one more number, and a key and a value that the format can hold, replaying the
  -- synced file runs the callback over all entries, the new one included.
  pub append_put_durable {ℓ} :
      {S : Type ℓ} (callback : WalEntry → S → Result S) (state : S) (es : List WalEntry) (w : Wal)
      (key value : Bytes)
      → IsLogOf crc es w
      → FitsOp (put key value)
      → w.next_sequence + 1 < 2 ^ 64
      → w.sync_policy ≡ always
      → replay crc callback (some (append_put crc key value w).1.writer.file.synced) state
        ≡ some (
            run callback
              (es ++ record { sequence = w.next_sequence; op = put key value } ∷ [])
              state)
  append_put_durable callback state es w key value h fits room policy =
      ap (λ f. replay crc callback (some f) state) (synced ∙ logged.content ∙ sym (append-nil _))
      ∙ replay-log_bytes crc callback _ [] state logged.storable (empty-IsEnd crc)
    where
      synced :
          (append_put crc key value w).1.writer.file.synced
          ≡ stream (append_put crc key value w).1.writer
      synced = unfold append_put in maybe_sync-always w.sync_policy _ policy

      logged :
          IsLogOf crc
            (es ++ record { sequence = w.next_sequence; op = put key value } ∷ [])
            (append_put crc key value w).1
      logged = (append_put-IsLogOf crc es w key value h fits room).1

  -- Cutting the log leaves the log of no entries, numbered from 0 again.
  pub truncate-IsLogOf : (w : Wal) → IsLogOf crc [] (truncate w)
  unfolding truncate
  truncate-IsLogOf w = record { content = refl; storable = tt; below = tt }
