-- ===== src/Wal/Crash.antt =====
-- What a crash leaves behind is a front of the log; and a log that is opened again after one.
use minikv.Prelude.{
  ℕ, zero, suc, ◌<◌, ◌≤◌, ◌≡◌, refl, sym, ap, ◌∙◌, ◌⊎◌, inl, inr, some, List, [], ◌∷◌, ◌++◌, arith,
  length, length-append, take, All, append_assoc, append-nil, append_split, All-take,
}
use minikv.Errors.{Result}
use minikv.Bytes.{Bytes}
use minikv.External.{Crc32}
use minikv.Wal.{WalEntry, replay, wal_magic}
use minikv.Wal.Format.{entry_bytes, IsStorable, entry_bytes_front, read_entry-entry_bytes}
use minikv.Wal.Reading.{read_entry_end, read_entry_shorter, read_entry-append, read_entry_bad_magic}
use minikv.Wal.Replay.{run, log_bytes, IsEnd, replay-log_bytes}

module _ (crc : Crc32) where
  -- An entry that is cut short is no entry.
  torn_entry-IsEnd :
      (e : WalEntry) (front : Bytes) (x : ℕ) (back : Bytes)
      → IsStorable e
      → front ++ x ∷ back ≡ entry_bytes crc e
      → IsEnd crc front
  torn_entry-IsEnd e front x back h p other r k =
      let whole = rw (append-nil (entry_bytes crc e)) at (read_entry-entry_bytes crc e [] h) in
      let more = rw p at (read_entry-append crc front (x ∷ back) other r k) in
      let same : r ++ x ∷ back ≡ [] = cc (whole, more) in
      omega (arith, ap length same, length-append {0} r (x ∷ back))

  pub empty-IsEnd : IsEnd crc []
  empty-IsEnd e r k = omega (arith, read_entry_shorter crc [] e r k)

  -- How many entries a front of the log holds, and the torn bytes behind them.
  record Cut (es : List WalEntry) (front : Bytes) : Type 0 where
    count : ℕ
    torn : Bytes
    count-le : count ≤ length es
    parts : front ≡ log_bytes crc (take count es) ++ torn
    torn-IsEnd : IsEnd crc torn
    maximal :
        (front ≡ log_bytes crc es) ⊎ (length front < length (log_bytes crc (take (suc count) es)))

  whole_entries :
      (es : List WalEntry) (front back : Bytes)
      → All IsStorable es
      → front ++ back ≡ log_bytes crc es
      → Cut es front
  whole_entries [] [] back h p = record {
    count = 0;
    torn = [];
    count-le = omega arith;
    parts = refl;
    torn-IsEnd = empty-IsEnd;
    maximal = inl refl;
  }
  whole_entries [] (x ∷ front) back h p = absurd cc
  whole_entries (e ∷ es) front back (he, hs) p =
      elim (append_split front back (entry_bytes crc e) (log_bytes crc es) p) [
        | inl (x, more, q) ↦ record {
          count = 0;
          torn = front;
          count-le = omega arith;
          parts = refl;
          torn-IsEnd = torn_entry-IsEnd e front x more he q;
          maximal =
              inr (rw append-nil (omega (arith, ap length q, length-append {0} front (x ∷ more))));
        }
        | inr (rest, q, t) ↦ go rest q (whole_entries es rest back hs t)
      ]
    where
      further :
          (rest : Bytes) (n : ℕ)
          → front ≡ entry_bytes crc e ++ rest
          → (rest ≡ log_bytes crc es) ⊎ (length rest < length (log_bytes crc (take (suc n) es)))
          → (front ≡ log_bytes crc (e ∷ es))
            ⊎ (length front < length (log_bytes crc (take (suc (suc n)) (e ∷ es))))
      further rest n q (inl r) = inl (q ∙ ap (λ l. entry_bytes crc e ++ l) r)
      further rest n q (inr lt) = inr (
          omega (
            arith,
            lt,
            ap length q,
            length-append {0} (entry_bytes crc e) rest,
            length-append {0} (entry_bytes crc e) (log_bytes crc (take (suc n) es)),
          ))

      go : (rest : Bytes) → front ≡ entry_bytes crc e ++ rest → Cut es rest → Cut (e ∷ es) front
      go rest q c = record {
        count = suc c.count;
        torn = c.torn;
        count-le = omega (arith, c.count-le);
        parts =
            q
            ∙ ap (λ l. entry_bytes crc e ++ l) c.parts
            ∙ sym (append_assoc (entry_bytes crc e) (log_bytes crc (take c.count es)) c.torn);
        torn-IsEnd = c.torn-IsEnd;
        maximal = further rest c.count q c.maximal;
      }

  -- A crash leaves some front of a log whose entries the format can hold. Replaying it ends without
  -- an error of the log's own and runs the callback over the first `n` entries: all of them that
  -- reached the file whole, and nothing of the one that was cut.
  pub replay_after_crash {ℓ} :
      {S : Type ℓ} (callback : WalEntry → S → Result S) (state : S) (es : List WalEntry)
      (front back : Bytes)
      → All IsStorable es
      → front ++ back ≡ log_bytes crc es
      → (n : ℕ) × (replay crc callback (some front) state ≡ some (run callback (take n es) state))
        × (length (log_bytes crc (take n es)) ≤ length front)
        × ((front ≡ log_bytes crc es) ⊎ (length front < length (log_bytes crc (take (suc n) es))))
  replay_after_crash callback state es front back h p =
      let c = whole_entries es front back h p in
      (
        c.count,
        ap (λ f. replay crc callback (some f) state) c.parts
            ∙ replay-log_bytes crc callback (take c.count es) c.torn state
                (All-take IsStorable c.count es h) c.torn-IsEnd,
        omega
            (arith, ap length c.parts, length-append {0} (log_bytes crc (take c.count es)) c.torn),
        c.maximal,
      )

  -- The torn front of a magic, with a magic behind it, is no entry.
  torn_magic :
      (k : ℕ) (s : Bytes) → 0 < k → k < 4 → IsEnd crc (take k wal_magic ++ (wal_magic ++ s))
  torn_magic zero s lo hi e r k = absurd (omega arith)
  torn_magic (suc zero) s lo hi e r k =
      cc (read_entry_bad_magic crc (0x57 ∷ (wal_magic ++ s)) (omega arith) refl)
  torn_magic (suc (suc zero)) s lo hi e r k =
      cc (read_entry_bad_magic crc (0x57 ∷ 0x41 ∷ (wal_magic ++ s)) (omega arith) refl)
  torn_magic (suc (suc (suc zero))) s lo hi e r k =
      cc (read_entry_bad_magic crc (0x57 ∷ 0x41 ∷ 0x4c ∷ (wal_magic ++ s)) (omega arith) refl)
  torn_magic (suc (suc (suc (suc n)))) s lo hi e r k = absurd (omega arith)

  pub torn_magic_alone : (k : ℕ) → 0 < k → k < 4 → IsEnd crc (take k wal_magic)
  torn_magic_alone zero lo hi e r k = absurd (omega arith)
  torn_magic_alone (suc zero) lo hi e r k = cc (k, read_entry_end crc (0x57 ∷ []) (omega arith))
  torn_magic_alone (suc (suc zero)) lo hi e r k =
      cc (k, read_entry_end crc (0x57 ∷ 0x41 ∷ []) (omega arith))
  torn_magic_alone (suc (suc (suc zero))) lo hi e r k =
      cc (k, read_entry_end crc (0x57 ∷ 0x41 ∷ 0x4c ∷ []) (omega arith))
  torn_magic_alone (suc (suc (suc (suc n)))) lo hi e r k = absurd (omega arith)

  -- Behind the torn front of a magic, one to three bytes of it after entries that the format can hold, no
  -- entry is replayed.
  pub torn_magic_hides_later_entries {ℓ} :
      {S : Type ℓ} (callback : WalEntry → S → Result S) (state : S) (es : List WalEntry) (k : ℕ)
      (e : WalEntry) (later : List WalEntry)
      → All IsStorable es
      → 0 < k
      → k < 4
      → replay crc callback
          (some (log_bytes crc es ++ (take k wal_magic ++ log_bytes crc (e ∷ later))))
          state
        ≡ some (run callback es state)
  torn_magic_hides_later_entries callback state es k e later h lo hi =
      let (body, p) = entry_bytes_front crc e in
      replay-log_bytes crc callback es _ state h
        (rw (p, append_assoc wal_magic body (log_bytes crc later)) (torn_magic k _ lo hi))
