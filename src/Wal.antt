-- ===== src/Wal.antt =====
-- src/volume/wal.rs: the write-ahead log. The file is its bytes; a `BufWriter` over it holds what
-- has not reached the file yet.
pub mod Format
pub mod Reading
pub mod Replay
pub mod Crash
pub mod Log
pub mod Reopen
pub mod Torn
mod Tests
use minikv.Prelude.{
  ℕ, zero, suc, ◌+◌, ◌-◌, ◌%◌, ◌^◌, max, String, Bool, true, false, not, Option, none, some, List,
  [], ◌∷◌, ◌++◌, leb, ltb, ◌==◌, nat_eq, list_eq, length, if◌then◌else◌,
}
use minikv.Errors.{Error, Result, ok, err, io, unexpected_eof, wal}
use minikv.Bytes.{
  Bytes, Reader, pure, fail, lift, ◌>>=◌, ◌>>◌, read_exact, le_bytes, from_le_bytes, from_utf8,
}
use minikv.External.{Crc32}
use minikv.Disk.{File, BufWriter, flush, sync_all, write_all}

abbrev pub wal_magic : Bytes
wal_magic = 0x57 ∷ 0x41 ∷ 0x4c ∷ 0x31 ∷ []

abbrev pub op_put : ℕ
op_put = 1

abbrev pub op_delete : ℕ
op_delete = 2

pub data WalOp : Type 0 where
  put : Bytes → Bytes → WalOp
  delete : Bytes → WalOp

pub record WalEntry : Type 0 where
  pub sequence : ℕ
  pub op : WalOp

pub data WalSyncPolicy : Type 0 where
  always interval never : WalSyncPolicy

pub record Wal : Type 0 where
  pub writer : BufWriter
  pub next_sequence : ℕ
  pub sync_policy : WalSyncPolicy

-- `x as u32`, little endian.
abbrev pub u32_bytes : ℕ → Bytes
u32_bytes n = le_bytes 4 (n % 2 ^ 32)

abbrev pub or_empty : Option Bytes → Bytes
or_empty none = []
or_empty (some v) = v

abbrev pub payload : ℕ → Bytes → Bytes
payload op val = if op == op_put then val else []

-- Everything between the magic and the checksum.
pub checksum_data : ℕ → ℕ → Bytes → Bytes → Bytes
checksum_data sequence op key val =
    le_bytes 8 sequence
    ++ ((op ∷ [])
        ++ (u32_bytes (length key) ++ (u32_bytes (length val) ++ (key ++ payload op val))))

module _ (crc : Crc32) where
  pub write_entry : ℕ → ℕ → Bytes → Option Bytes → BufWriter → BufWriter
  unfolding checksum_data
  write_entry sequence op key value w =
      let val = or_empty value in
      let w = write_all wal_magic w in
      let w = write_all (le_bytes 8 sequence) w in
      let w = write_all (op ∷ []) w in
      let w = write_all (u32_bytes (length key)) w in
      let w = write_all (u32_bytes (length val)) w in
      let w = write_all key w in
      let w = if op == op_put then write_all val w else w in
      write_all (le_bytes 4 (crc.hash (checksum_data sequence op key val))) w

  pub maybe_sync : WalSyncPolicy → BufWriter → BufWriter
  unfolding flush sync_all
  maybe_sync always w = sync_all (flush w)
  maybe_sync interval w = flush w
  maybe_sync never w = w

  -- The sequence number is taken, and the counter moved, before the write.
  append : ℕ → Bytes → Option Bytes → Wal → ℕ × Wal
  unfolding write_entry maybe_sync
  append op key value w =
      let sequence = w.next_sequence in
      (
        sequence,
        record w {
          writer = maybe_sync w.sync_policy (write_entry sequence op key value w.writer);
          next_sequence = (sequence + 1) % 2 ^ 64;
        },
      )

  pub append_put : Bytes → Bytes → Wal → ℕ × Wal
  unfolding append
  append_put key value = append op_put key (some value)

  pub append_delete : Bytes → Wal → ℕ × Wal
  unfolding append
  append_delete key = append op_delete key none

  -- The value is there for OP_PUT alone.
  read_value : ℕ → ℕ → Reader (Option Bytes)
  read_value op val_len =
      if op == op_put then (do val ← read_exact val_len; pure (some val)) else pure none

  to_wal_op : ℕ → Bytes → Option Bytes → Result WalOp
  to_wal_op op key value =
      if op == op_put
      then ok (put key (or_empty value))
      else if op == op_delete
      then ok (delete key)
      else err (wal "Unknown op code")

  -- What `read_entry_internal` does behind the magic.
  read_fields : Reader WalEntry
  unfolding read_value to_wal_op
  read_fields = do
    seq_bytes ← read_exact 8
    op_bytes ← read_exact 1
    key_len_bytes ← read_exact 4
    val_len_bytes ← read_exact 4
    key_bytes ← read_exact (from_le_bytes key_len_bytes)
    key ← lift (from_utf8 (wal "Invalid UTF-8 in key") key_bytes)
    value ← read_value (from_le_bytes op_bytes) (from_le_bytes val_len_bytes)
    checksum_bytes ← read_exact 4
    let stored = from_le_bytes checksum_bytes
    let val = or_empty value
    let data' = seq_bytes ++ (op_bytes ++ (key_len_bytes ++ (val_len_bytes ++ (key ++ val))))
    if not (crc.hash data' == stored) then fail (wal "Checksum mismatch") else do
      op ← lift (to_wal_op (from_le_bytes op_bytes) key value)
      pure (record { sequence = from_le_bytes seq_bytes; op = op })

  after_magic : Bytes → Reader (Option WalEntry)
  after_magic magic =
      if not (magic == wal_magic)
      then fail (wal "Invalid WAL magic")
      else (do entry ← read_fields; pure (some entry))

  -- The end of the file where an entry could begin is no error; it is one anywhere else.
  pub read_entry : Reader (Option WalEntry)
  read_entry s = elim (read_exact 4 s) [
    | err (io unexpected_eof) ↦ ok (none, s)
    | err e ↦ err e
    | ok (magic, s') ↦ after_magic magic s'
  ]

  -- The loop of `find_last_sequence`; `none` is a loop that has used up its fuel.
  find_last_loop : ℕ → Option ℕ → Bytes → Option (Option ℕ)
  find_last_loop zero max_seq s = none
  find_last_loop (suc fuel) max_seq s = elim (read_entry s) [
    | ok (some entry, s') ↦
        find_last_loop fuel (some (max (elim max_seq [ none ↦ 0 | some m ↦ m ]) entry.sequence)) s'
    | ok (none, s') ↦ some max_seq
    | err e ↦ some max_seq
  ]

  -- The file is there: `open` has created it.
  pub find_last_sequence : Bytes → Option ℕ
  unfolding find_last_loop
  find_last_sequence s = elim (find_last_loop (length s + 1) none s) [
    | none ↦ none
    | some none ↦ some 0
    | some (some m) ↦ some ((m + 1) % 2 ^ 64)
  ]

  -- `Wal::open` on the bytes that the file has, none if it is new.
  pub open_wal : WalSyncPolicy → Bytes → Option Wal
  unfolding find_last_sequence
  open_wal sync_policy content = elim (find_last_sequence content) [
    | none ↦ none
    | some n ↦ some (record {
      writer = record { file = record { content = content; synced = content }; buffer = [] };
      next_sequence = n;
      sync_policy = sync_policy;
    })
  ]

  module _ {ℓ} {S : Type ℓ} (callback : WalEntry → S → Result S) where
    -- The loop of `replay`, with the state that the callback changes.
    replay_loop : ℕ → Bytes → S → Option (Result S)
    replay_loop zero s state = none
    replay_loop (suc fuel) s state = elim (read_entry s) [
      | ok (some entry, s') ↦ elim (callback entry state) [
        | ok state' ↦ replay_loop fuel s' state'
        | err e ↦ some (err e)
      ]
      | ok (none, s') ↦ some (ok state)
      | err e ↦ some (ok state)
    ]

    -- A file that is not there is nothing to replay.
    pub replay : Option Bytes → S → Option (Result S)
    unfolding replay_loop
    replay none state = some (ok state)
    replay (some s) state = replay_loop (length s + 1) s state

-- `truncate`: the old writer is flushed and dropped, the file cut to nothing.
pub truncate : Wal → Wal
unfolding flush
truncate w = record w {
  writer = record { file = record (flush w.writer).file { content = [] }; buffer = [] };
  next_sequence = 0;
}

pub sync : Wal → Wal
unfolding flush sync_all
sync w = record w { writer = sync_all (flush w.writer) }
