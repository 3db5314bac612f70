-- ===== src/Wal/Log.antt =====
-- The open log: what `open_wal`, the appends, `truncate` and `sync` keep of it.
use minikv.Prelude.{
  ℕ, ◌+◌, ◌%◌, ◌^◌, ◌<◌, ◌≤◌, ◌≡◌, refl, sym, ap, ◌∙◌, List, [], ◌∷◌, ◌++◌, arith, All, All-append,
  append_assoc, append-nil,
}
use minikv.Bytes.{Bytes}
use minikv.External.{Crc32}
use minikv.Disk.{BufWriter, stream, flush, stream-flush, stream-sync_all}
use minikv.Wal.{
  Wal, WalEntry, WalOp, WalSyncPolicy, put, delete, always, interval, never, append_put,
  append_delete, maybe_sync,
}
use minikv.Wal.Format.{
  entry_bytes, IsStorable, FitsOp, stream-write_entry-put, stream-write_entry-delete,
}
use minikv.Wal.Replay.{log_bytes}

module _ (crc : Crc32) where
  -- The stream of the writer is the log of these entries, numbered below the next number.
  pub record IsLogOf (es : List WalEntry) (w : Wal) : Type 0 where
    pub content : stream w.writer ≡ log_bytes crc es
    pub storable : All IsStorable es
    pub below : All (λ e. e.sequence < w.next_sequence) es

  log_bytes-append :
      (es fs : List WalEntry) → log_bytes crc (es ++ fs) ≡ log_bytes crc es ++ log_bytes crc fs
  log_bytes-append [] fs = refl
  log_bytes-append (e ∷ es) fs =
      ap (λ l. entry_bytes crc e ++ l) (log_bytes-append es fs)
      ∙ sym (append_assoc (entry_bytes crc e) (log_bytes crc es) (log_bytes crc fs))

  pub stream-maybe_sync :
      (p : WalSyncPolicy) (w : BufWriter) → stream (maybe_sync crc p w) ≡ stream w
  unfolding maybe_sync
  stream-maybe_sync always w = stream-sync_all (flush w) ∙ stream-flush w
  stream-maybe_sync interval w = stream-flush w
  stream-maybe_sync never w = refl

  abbrev entry : ℕ → WalOp → WalEntry
  entry n op = record { sequence = n; op = op }

  pub All-below :
      (n m : ℕ) (es : List WalEntry)
      → n ≤ m
      → All (λ e. e.sequence < n) es
      → All (λ e. e.sequence < m) es
  All-below n m [] le h = tt
  All-below n m (e ∷ es) le (he, hs) = (omega arith, All-below n m es le hs)

  -- One more entry at the end of the stream, under the next number.
  grow :
      (es : List WalEntry) (w w' : Wal) (op : WalOp)
      → IsLogOf es w
      → FitsOp op
      → w.next_sequence + 1 < 2 ^ 64
      → w'.next_sequence ≡ (w.next_sequence + 1) % 2 ^ 64
      → stream w'.writer ≡ stream w.writer ++ entry_bytes crc (entry w.next_sequence op)
      → IsLogOf (es ++ entry w.next_sequence op ∷ []) w'
  grow es w w' op h fits room next s = record {
    content =
        s
        ∙ ap (λ l. l ++ entry_bytes crc (entry w.next_sequence op)) h.content
        ∙ ap (λ l. log_bytes crc es ++ l) (sym (append-nil _))
        ∙ sym (log_bytes-append es (entry w.next_sequence op ∷ []));
    storable =
        All-append IsStorable es _ h.storable
          (record { sequence_fits = omega arith; op_fits = fits }, tt);
    below = All-append _ es _ (All-below _ _ es (omega arith) h.below) (omega arith, tt);
  }

  -- `append_put` returns the next number, and adds exactly the entry of that number at the end of a
  -- log, if the format can hold the key and the value and there is a number after it.
  pub append_put-IsLogOf :
      (es : List WalEntry) (w : Wal) (key value : Bytes)
      → IsLogOf es w
      → FitsOp (put key value)
      → w.next_sequence + 1 < 2 ^ 64
      → ((append_put crc key value w).0 ≡ w.next_sequence)
        × IsLogOf
            (es ++ record { sequence = w.next_sequence; op = put key value } ∷ [])
            (append_put crc key value w).1
  unfolding append_put
  append_put-IsLogOf es w key value h fits room = (
    refl,
    grow es w _ (put key value) h fits room refl (
        stream-maybe_sync w.sync_policy _
        ∙ stream-write_entry-put crc w.next_sequence key value w.writer),
  )

  -- `append_delete` does the same with an entry that deletes the key.
  pub append_delete-IsLogOf :
      (es : List WalEntry) (w : Wal) (key : Bytes)
      → IsLogOf es w
      → FitsOp (delete key)
      → w.next_sequence + 1 < 2 ^ 64
      → ((append_delete crc key w).0 ≡ w.next_sequence)
        × IsLogOf
            (es ++ record { sequence = w.next_sequence; op = delete key } ∷ [])
            (append_delete crc key w).1
  unfolding append_delete
  append_delete-IsLogOf es w key h fits room = (
    refl,
    grow es w _ (delete key) h fits room refl (
        stream-maybe_sync w.sync_policy _
        ∙ stream-write_entry-delete crc w.next_sequence key w.writer),
  )

  pub append-next_sequence :
      (w : Wal) (key value : Bytes)
      → ((append_put crc key value w).1.next_sequence ≡ (w.next_sequence + 1) % 2 ^ 64)
        × ((append_delete crc key w).1.next_sequence ≡ (w.next_sequence + 1) % 2 ^ 64)
  unfolding append_put append_delete
  append-next_sequence w key value = (refl, refl)
