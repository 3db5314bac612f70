-- ===== src/Wal/Tests.antt =====
-- The log of src/volume/wal.rs on concrete entries.
use minikv.Prelude.{
  suc, ℕ, ◌≡◌, ◌≤◌, ◌<◌, ◌⊎◌, ◌+◌, refl, arith, some, List, [], ◌∷◌, ◌++◌, take, length, append-nil,
  append_assoc,
}
use minikv.Errors.{Result, ok}
use minikv.Samples.{key_a, size_crc, key_b, key_a_utf8, key_b_utf8, put_a, delete_b}
use minikv.Disk.{stream}
use minikv.Wal.{delete, Wal, WalEntry, put, replay, open_wal, append_put, always, wal_magic}
use minikv.Wal.Format.{IsStorable, entry_bytes}
use minikv.Wal.Replay.{run, log_bytes, replay-log_bytes, replay_total}
use minikv.Wal.Crash.{replay_after_crash, empty-IsEnd}
use minikv.Wal.Log.{IsLogOf}
use minikv.Wal.Torn.{append_all, replay-append_all-open_wal}
use minikv.Wal.Reopen.{open_wal-IsLogOf, append_put_durable}

abbrev two_entries : List WalEntry
two_entries = put_a ∷ delete_b ∷ []

put_a-IsStorable : IsStorable put_a
put_a-IsStorable = record {
  sequence_fits = omega arith;
  op_fits = (key_a_utf8, omega arith, omega arith);
}

delete_b-IsStorable : IsStorable delete_b
delete_b-IsStorable = record { sequence_fits = omega arith; op_fits = (key_b_utf8, omega arith) }

-- A callback that counts.
abbrev count : WalEntry → ℕ → Result ℕ
count e n = ok (n + 1)

abbrev open_log : Wal
open_log = record {
  writer = record {
    file = record { content = log_bytes size_crc (put_a ∷ []); synced = [] };
    buffer = [];
  };
  next_sequence = 1;
  sync_policy = always;
}

open_log-IsLogOf : IsLogOf size_crc (put_a ∷ []) open_log
open_log-IsLogOf = record {
  content = append-nil (log_bytes size_crc (put_a ∷ []));
  storable = (put_a-IsStorable, tt);
  below = (omega arith, tt);
}

replay_after_crash_example :
    (n : ℕ) × (replay size_crc count (some (log_bytes size_crc (put_a ∷ []))) 0
      ≡ some (run count (take n two_entries) 0))
    × (length (log_bytes size_crc (take n two_entries)) ≤ length (log_bytes size_crc (put_a ∷ [])))
    × ((log_bytes size_crc (put_a ∷ []) ≡ log_bytes size_crc two_entries)
        ⊎ (length (log_bytes size_crc (put_a ∷ []))
            < length (log_bytes size_crc (take (suc n) two_entries))))
replay_after_crash_example =
    replay_after_crash size_crc count 0 two_entries (log_bytes size_crc (put_a ∷ []))
      (log_bytes size_crc (delete_b ∷ [])) (put_a-IsStorable, (delete_b-IsStorable, tt))
      (append_assoc (entry_bytes size_crc put_a) [] (log_bytes size_crc (delete_b ∷ [])))

replay-log_bytes_example :
    replay size_crc count (some (log_bytes size_crc two_entries ++ [])) 0
    ≡ some (run count two_entries 0)
replay-log_bytes_example =
    replay-log_bytes size_crc count two_entries [] 0 (put_a-IsStorable, (delete_b-IsStorable, tt))
      (empty-IsEnd size_crc)

replay_total_example : (x : Result ℕ) × (replay size_crc count (some (0x57 ∷ 0x41 ∷ [])) 0 ≡ some x)
replay_total_example = replay_total size_crc count (some (0x57 ∷ 0x41 ∷ [])) 0

open_wal-IsLogOf_example :
    (w : Wal) × (open_wal size_crc always (log_bytes size_crc two_entries) ≡ some w)
    × IsLogOf size_crc two_entries w
open_wal-IsLogOf_example =
    open_wal-IsLogOf size_crc always two_entries (put_a-IsStorable, (delete_b-IsStorable, tt))
      (omega arith, (omega arith, tt))

append_put_durable_example :
    replay size_crc count
      (some (append_put size_crc key_b (3 ∷ []) open_log).1.writer.file.synced)
      0
    ≡ some (run count (put_a ∷ record { sequence = 1; op = put key_b (3 ∷ []) } ∷ []) 0)
append_put_durable_example =
    append_put_durable size_crc count 0 (put_a ∷ []) open_log key_b (3 ∷ []) open_log-IsLogOf
      (key_b_utf8, omega arith, omega arith) (omega arith) refl

replay-append_all-open_wal_example :
    (w : Wal) × (open_wal size_crc always (log_bytes size_crc (put_a ∷ []) ++ take 2 wal_magic)
      ≡ some w)
    × (replay size_crc count
          (some (stream (append_all size_crc (put key_b (3 ∷ []) ∷ delete key_a ∷ []) w).writer))
          0
        ≡ some (run count (put_a ∷ []) 0))
replay-append_all-open_wal_example =
    replay-append_all-open_wal size_crc count 0 always (put_a ∷ []) 2
      (put key_b (3 ∷ []) ∷ delete key_a ∷ []) (put_a-IsStorable, tt) (omega arith) (omega arith)
