-- ===== src/Blob/Spec.antt =====
-- What a volume promises its clients, without a log, an index or files: a map from keys to values, each
-- with the time until which it is there.
use minikv.Prelude.{
  ℕ, ◌+◌, ◌%◌, ◌^◌, Bool, false, Option, none, some, List, [], ◌∷◌, ltb, ◌==◌, nat_eq, list_eq,
  if◌then◌else◌,
}
use minikv.Bytes.{Bytes}

abbrev pub Spec : Type 0
Spec = Bytes → Option (Bytes × Option ℕ)

abbrev pub is_past : ℕ → Option ℕ → Bool
is_past now none = false
is_past now (some t) = ltb t now

abbrev pub until : ℕ → Option ℕ → Option ℕ
until now none = none
until now (some ttl) = some ((now + ttl) % 2 ^ 64)

abbrev pub live_value : ℕ → Option (Bytes × Option ℕ) → Option Bytes
live_value now none = none
live_value now (some (value, expires)) = if is_past now expires then none else some value

abbrev pub live : ℕ → Option (Bytes × Option ℕ) → Option (Bytes × Option ℕ)
live now none = none
live now (some (value, expires)) = if is_past now expires then none else some (value, expires)

pub data Command : Type 0 where
  put : ℕ → Bytes → Bytes → Option ℕ → Command
  delete : Bytes → Command
  cleanup : ℕ → Command

unfoldable pub spec_step : Command → Spec → Spec
spec_step (put now key value ttl_ms) spec k =
    if key == k then some (value, until now ttl_ms) else spec k
spec_step (delete key) spec k = if key == k then none else spec k
spec_step (cleanup now) spec k = live now (spec k)

unfoldable pub spec_run : List Command → Spec → Spec
spec_run [] spec = spec
spec_run (c ∷ cs) spec = spec_run cs (spec_step c spec)

unfoldable pub spec_get : ℕ → Bytes → Spec → Option Bytes
spec_get now key spec = live_value now (spec key)
