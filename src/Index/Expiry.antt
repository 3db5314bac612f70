-- ===== src/Index/Expiry.antt =====
-- Expired keys: what a cleanup removes, and what readers see of it.
use minikv.Prelude.{
  ℕ, ◌+◌, ◌≤◌, ◌≡◌, refl, sym, ap, ◌∙◌, Bool, false, not, ◌||◌, inl, inr, Bool-cases, Option, none,
  List, [], ◌∷◌, arith, ◌==◌, nat_eq, list_eq, list_beq_iff, length,
}
use minikv.Bytes.{Bytes}
use minikv.HashMap.{HashMap, lookup, remove, retain, HasDistinctKeys}
use minikv.HashMap.Laws.{kept, lookup-retain, retain-HasDistinctKeys, remove-head}
use minikv.Index.{
  Index, BlobLocation, get, has_expired, is_expired, get_if_valid, expired_keys, remove_all,
  cleanup_expired,
}

contains : Bytes → List Bytes → Bool
contains k [] = false
contains k (j ∷ ks) = (j == k) || contains k ks

abbrev is_live : ℕ → Bytes → BlobLocation → Bool
is_live now key loc = not (has_expired now loc)

contains-expired_keys :
    (now : ℕ) (k : Bytes) (m : HashMap Bytes BlobLocation)
    → lookup k m ≡ none
    → contains k (expired_keys now m) ≡ false
unfolding contains expired_keys lookup
contains-expired_keys now k [] h = refl
contains-expired_keys now k ((j, loc) ∷ m) h = ground (arith, contains-expired_keys now k m)

remove_all-cons :
    (ks : List Bytes) (k : Bytes) (loc : BlobLocation) (m : HashMap Bytes BlobLocation)
    → contains k ks ≡ false
    → remove_all ks ((k, loc) ∷ m) ≡ (k, loc) ∷ remove_all ks m
unfolding contains remove_all remove
remove_all-cons [] k loc m h = refl
remove_all-cons (j ∷ ks) k loc m h =
    ground (arith, list_beq_iff j k, list_beq_iff k j, remove_all-cons ks k loc (remove j m))

remove_all-expired_keys :
    (now : ℕ) (m : HashMap Bytes BlobLocation)
    → HasDistinctKeys m
    → remove_all (expired_keys now m) m ≡ retain (is_live now) m
unfolding expired_keys retain remove_all
remove_all-expired_keys now [] h = refl
remove_all-expired_keys now ((k, loc) ∷ m) (fresh, h) = elim (Bool-cases (has_expired now loc)) [
  | inl gone ↦ rw gone (
      ap (remove_all (expired_keys now m)) (remove-head k loc m fresh)
      ∙ remove_all-expired_keys now m h)
  | inr live ↦ rw live (
      remove_all-cons (expired_keys now m) k loc m (contains-expired_keys now k m fresh)
      ∙ ap (λ l. (k, loc) ∷ l) (remove_all-expired_keys now m h))
]

length-retain :
    (now : ℕ) (m : HashMap Bytes BlobLocation)
    → length (retain (is_live now) m) + length (expired_keys now m) ≡ length m
unfolding expired_keys retain
length-retain now [] = omega arith
length-retain now ((k, loc) ∷ m) = ground (arith, length-retain now m)

-- A lookup that respects the expiry keeps what is live.
kept_live :
    (now : ℕ) (k : Bytes) (ix : Index) → kept (is_live now k) (get k ix) ≡ get_if_valid now k ix
unfolding get_if_valid is_expired
kept_live now k ix = ground arith

kept_later :
    (now later : ℕ) (k : Bytes) (o : Option BlobLocation)
    → now ≤ later
    → kept (is_live later k) (kept (is_live now k) o) ≡ kept (is_live later k) o
unfolding has_expired
kept_later now later k o h = ground arith

-- In an index where no key stands twice a cleanup removes exactly the expired keys: a lookup in what
-- is left is a lookup that respects the expiry in what was there. It counts what it removes, and
-- keeps the keys distinct.
pub cleanup_expired_lem :
    (now : ℕ) (ix : Index)
    → HasDistinctKeys ix.map
    → ((k : Bytes) → get k (cleanup_expired now ix).0 ≡ get_if_valid now k ix)
      × (length (cleanup_expired now ix).0.map + (cleanup_expired now ix).1 ≡ length ix.map)
      × HasDistinctKeys (cleanup_expired now ix).0.map
unfolding cleanup_expired
cleanup_expired_lem now ix h =
    let e = remove_all-expired_keys now ix.map h in
    (
      λ k. rw e (rw (lookup-retain (is_live now) k ix.map h) (kept_live now k ix)),
      rw e (length-retain now ix.map),
      rw e (retain-HasDistinctKeys (is_live now) ix.map h),
    )

-- A key that has expired stays expired, so in an index where no key stands twice no reader sees at
-- any later time whether a cleanup ran.
pub get_if_valid-cleanup_expired :
    (now later : ℕ) (k : Bytes) (ix : Index)
    → HasDistinctKeys ix.map
    → now ≤ later
    → get_if_valid later k (cleanup_expired now ix).0 ≡ get_if_valid later k ix
get_if_valid-cleanup_expired now later k ix h le =
    sym (kept_live later k (cleanup_expired now ix).0)
    ∙ ap (kept (is_live later k)) ((cleanup_expired_lem now ix h).0 k ∙ sym (kept_live now k ix))
    ∙ kept_later now later k (get k ix) le
    ∙ kept_live later k ix
