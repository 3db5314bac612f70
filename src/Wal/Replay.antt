-- ===== src/Wal/Replay.antt =====
-- `replay` and `find_last_sequence` on a log of entries with anything behind it that is no entry.
use minikv.Prelude.{
  ℕ, zero, suc, ◌+◌, ◌<◌, ◌≡◌, refl, ◌∙◌, ◌⊎◌, inl, inr, some, none, Option, List, [], ◌∷◌, ◌++◌,
  arith, length, All, append_assoc,
}
use minikv.Errors.{Result, Error, ok, err, ◌>>=◌}
use minikv.Bytes.{Bytes}
use minikv.External.{Crc32}
use minikv.Wal.{WalEntry, read_entry, replay, replay_loop}
use minikv.Wal.Format.{entry_bytes, IsStorable, read_entry-entry_bytes}
use minikv.Wal.Reading.{read_entry_shorter}

-- The callback over all entries in order, ended by its first error.
abbrev pub run {ℓ} : {S : Type ℓ} → (WalEntry → S → Result S) → List WalEntry → S → Result S
run callback [] state = ok state
run callback (e ∷ es) state = callback e state >>= run callback es

module _ (crc : Crc32) where
  abbrev pub log_bytes : List WalEntry → Bytes
  log_bytes [] = []
  log_bytes (e ∷ es) = entry_bytes crc e ++ log_bytes es

  -- No entry can be read here.
  abbrev pub IsEnd : Bytes → Type 0
  IsEnd s = (e : WalEntry) (r : Bytes) → ¬ (read_entry crc s ≡ ok (some e, r))

  pub entry_cases :
      (s : Bytes) → ((e : WalEntry) × (r : Bytes) × (read_entry crc s ≡ ok (some e, r))) ⊎ IsEnd s
  entry_cases s = go (read_entry crc s) refl
    where
      go :
          (x : Result (Option WalEntry × Bytes))
          → read_entry crc s ≡ x
          → ((e : WalEntry) × (r : Bytes) × (read_entry crc s ≡ ok (some e, r))) ⊎ IsEnd s
      go (ok (some e, r)) h = inl (e, r, h)
      go (ok (none, r)) h = inr (λ e r' k. cc)
      go (err x) h = inr (λ e r' k. cc)

  pub end_cases :
      (s : Bytes)
      → IsEnd s
      → ((r : Bytes) × (read_entry crc s ≡ ok (none, r)))
        ⊎ ((x : Error) × (read_entry crc s ≡ err x))
  end_cases s h = go (read_entry crc s) refl
    where
      go :
          (x : Result (Option WalEntry × Bytes))
          → read_entry crc s ≡ x
          → ((r : Bytes) × (read_entry crc s ≡ ok (none, r)))
            ⊎ ((x : Error) × (read_entry crc s ≡ err x))
      go (ok (some e, r)) k = absurd (h e r k)
      go (ok (none, r)) k = inl (r, k)
      go (err x) k = inr (x, k)

  module _ {ℓ} {S : Type ℓ} (callback : WalEntry → S → Result S) where
    replay_loop_end :
        (fuel : ℕ) (s : Bytes) (state : S)
        → IsEnd s
        → replay_loop crc callback (suc fuel) s state ≡ some (ok state)
    unfolding replay_loop
    replay_loop_end fuel s state h = elim (end_cases s h) [
      | inl (r, e) ↦ rw (e, replay_loop)
      | inr (x, e) ↦ rw (e, replay_loop)
    ]

    after_callback : ℕ → Bytes → Result S → Option (Result S)
    after_callback fuel s (ok state) = replay_loop crc callback fuel s state
    after_callback fuel s (err e) = some (err e)

    replay_loop_entry :
        (fuel : ℕ) (s : Bytes) (state : S) (e : WalEntry) (r : Bytes)
        → read_entry crc s ≡ ok (some e, r)
        → replay_loop crc callback (suc fuel) s state ≡ after_callback fuel r (callback e state)
    unfolding replay_loop after_callback
    replay_loop_entry fuel s state e r h = rw (h, replay_loop) (go (callback e state))
      where
        go :
            (x : Result S)
            → elim x [ ok state' ↦ replay_loop crc callback fuel r state' | err y ↦ some (err y) ]
              ≡ after_callback fuel r x
        go (ok state') = refl
        go (err y) = refl

    replay_loop-log :
        (es : List WalEntry) (tail : Bytes) (fuel : ℕ) (state : S)
        → All IsStorable es
        → IsEnd tail
        → length (log_bytes es ++ tail) < fuel
        → replay_loop crc callback fuel (log_bytes es ++ tail) state ≡ some (run callback es state)
    replay_loop-log es tail zero state h t lt = absurd (omega arith)
    replay_loop-log [] tail (suc fuel) state h t lt = replay_loop_end fuel tail state t
    replay_loop-log (e ∷ es) tail (suc fuel) state (he, hs) t lt =
        replay_loop_entry fuel _ state e rest first
        ∙ go (callback e state) λ next.
          replay_loop-log es tail fuel next hs t
            (omega (arith, read_entry_shorter crc _ e rest first))
      where
        rest : Bytes
        rest = log_bytes es ++ tail

        first : read_entry crc (log_bytes (e ∷ es) ++ tail) ≡ ok (some e, rest)
        first =
            rw (append_assoc (entry_bytes crc e) (log_bytes es) tail)
              (read_entry-entry_bytes crc e rest he)

        go :
            (x : Result S)
            → ((next : S) → replay_loop crc callback fuel rest next ≡ some (run callback es next))
            → after_callback fuel rest x ≡ some (x >>= run callback es)
        go (err y) ih = unfold after_callback in refl
        go (ok next) ih = unfold after_callback in ih next

    -- The fuel that `replay` is given is enough on every file.
    replay_loop_total :
        (fuel : ℕ) (s : Bytes) (state : S)
        → length s < fuel
        → (x : Result S) × (replay_loop crc callback fuel s state ≡ some x)
    replay_loop_total zero s state h = absurd (omega arith)
    replay_loop_total (suc fuel) s state h = elim (entry_cases s) [
      | inr end ↦ (ok state, replay_loop_end fuel s state end)
      | inl (e, r, k) ↦
          let (x, p) = go r (callback e state) (λ next.
            replay_loop_total fuel r next (omega (arith, read_entry_shorter crc s e r k))) in
          (x, replay_loop_entry fuel s state e r k ∙ p)
    ]
      where
        go :
            (r : Bytes) (y : Result S)
            → ((next : S) → (x : Result S) × (replay_loop crc callback fuel r next ≡ some x))
            → (x : Result S) × (after_callback fuel r y ≡ some x)
        go r (err y) ih = (err y, unfold after_callback in refl)
        go r (ok next) ih = unfold after_callback in ih next

    -- Replaying any file ends, whatever its bytes and whatever the callback answers.
    pub replay_total :
        (file : Option Bytes) (state : S)
        → (x : Result S) × (replay crc callback file state ≡ some x)
    unfolding replay
    replay_total none state = (ok state, refl)
    replay_total (some s) state = replay_loop_total (length s + 1) s state (omega arith)

    -- Replaying a log of entries that the format can hold, with bytes behind it that are no entry,
    -- runs the callback over exactly these entries, in the order in which they were written, and
    -- stops with the first error of the callback.
    pub replay-log_bytes :
        (es : List WalEntry) (tail : Bytes) (state : S)
        → All IsStorable es
        → IsEnd tail
        → replay crc callback (some (log_bytes es ++ tail)) state ≡ some (run callback es state)
    unfolding replay
    replay-log_bytes es tail state h t = replay_loop-log es tail _ state h t (omega arith)
