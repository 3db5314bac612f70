-- ===== src/Wal/Torn.antt =====
-- src/volume/wal.rs: a log that is opened behind a torn magic, and what is appended to it then.
use minikv.Prelude.{
  none, ℕ, ◌<◌, ◌≡◌, refl, sym, ap, ◌∙◌, some, List, [], ◌∷◌, ◌++◌, take, All, append_assoc,
  append-nil,
}
use minikv.Errors.{Result}
use minikv.External.{Crc32}
use minikv.Disk.{stream}
use minikv.Wal.{
  replay, Wal, WalEntry, WalOp, WalSyncPolicy, put, delete, open_wal, append_put, append_delete,
  wal_magic,
}
use minikv.Wal.Format.{entry_bytes, IsStorable, stream-write_entry-put, stream-write_entry-delete}
use minikv.Wal.Replay.{replay-log_bytes, run, log_bytes}
use minikv.Wal.Crash.{torn_magic_hides_later_entries, torn_magic_alone}
use minikv.Wal.Log.{stream-maybe_sync}
use minikv.Wal.Reopen.{find_last_sequence-log, highest, next_of}

module _ (crc : Crc32) where
  abbrev pub append : WalOp → Wal → Wal
  append (put key value) w = (append_put crc key value w).1
  append (delete key) w = (append_delete crc key w).1

  abbrev pub append_all : List WalOp → Wal → Wal
  append_all [] w = w
  append_all (op ∷ ops) w = append_all ops (append op w)

  stream-append :
      (op : WalOp) (w : Wal)
      → stream (append op w).writer
        ≡ stream w.writer ++ entry_bytes crc (record { sequence = w.next_sequence; op = op })
  unfolding append_put append_delete
  stream-append (put key value) w =
      stream-maybe_sync crc w.sync_policy _
      ∙ stream-write_entry-put crc w.next_sequence key value w.writer
  stream-append (delete key) w =
      stream-maybe_sync crc w.sync_policy _
      ∙ stream-write_entry-delete crc w.next_sequence key w.writer

  -- Behind what a log had there are the entries of what was appended.
  stream-append_all :
      (ops : List WalOp) (w : Wal)
      → (es : List WalEntry) × (stream (append_all ops w).writer
          ≡ stream w.writer ++ log_bytes crc es)
  stream-append_all [] w = ([], sym (append-nil _))
  stream-append_all (op ∷ ops) w =
      let (es, e) = stream-append_all ops (append op w) in
      (
        record { sequence = w.next_sequence; op = op } ∷ es,
        e
            ∙ ap (λ s. s ++ log_bytes crc es) (stream-append op w)
            ∙ append_assoc (stream w.writer) _ (log_bytes crc es),
      )

  -- A log of entries that the format can hold, with the torn front of a magic behind them, one to three
  -- bytes of it, opens. Whatever is then appended to it, replaying all that was written runs the
  -- callback over the entries from before the crash and over none of those that were appended.
  pub replay-append_all-open_wal {ℓ} :
      {S : Type ℓ} (callback : WalEntry → S → Result S) (state : S) (policy : WalSyncPolicy)
      (es : List WalEntry) (k : ℕ) (ops : List WalOp)
      → All IsStorable es
      → 0 < k
      → k < 4
      → (w : Wal) × (open_wal crc policy (log_bytes crc es ++ take k wal_magic) ≡ some w)
        × (replay crc callback (some (stream (append_all ops w).writer)) state
            ≡ some (run callback es state))
  unfolding open_wal
  replay-append_all-open_wal {S = S} callback state policy es k ops h lo hi = (
    opened,
    rw (find_last_sequence-log crc es (take k wal_magic) h (torn_magic_alone crc k lo hi), open_wal)
        refl,
    hidden (stream-append_all ops opened),
  )
    where
      opened : Wal
      opened = record {
        writer = record {
          file = record {
            content = log_bytes crc es ++ take k wal_magic;
            synced = log_bytes crc es ++ take k wal_magic;
          };
          buffer = [];
        };
        next_sequence = next_of crc (highest crc none es);
        sync_policy = policy;
      }

      behind :
          (later : List WalEntry)
          → replay crc callback
              (some (log_bytes crc es ++ (take k wal_magic ++ log_bytes crc later)))
              state
            ≡ some (run callback es state)
      behind [] = rw (append-nil (take k wal_magic)) (
          replay-log_bytes crc callback es (take k wal_magic) state h
            (torn_magic_alone crc k lo hi))
      behind (x ∷ later) = torn_magic_hides_later_entries crc callback state es k x later h lo hi

      hidden :
          ((later : List WalEntry) × (stream (append_all ops opened).writer
              ≡ stream opened.writer ++ log_bytes crc later))
          → replay crc callback (some (stream (append_all ops opened).writer)) state
            ≡ some (run callback es state)
      hidden (later, e) =
          ap (λ s. replay crc callback (some s) state)
            (e
              ∙ ap (λ s. s ++ log_bytes crc later) (append-nil _)
              ∙ append_assoc (log_bytes crc es) (take k wal_magic) (log_bytes crc later))
          ∙ behind later
