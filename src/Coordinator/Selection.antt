-- ===== src/Coordinator/Selection.antt =====
-- src/coordinator/http.rs: which keys a query answers with, and in which order.
use minikv.Prelude.{
  ◌<◌, and-eq-true, ℕ, ◌+◌, ◌≡◌, refl, ap, ◌∙◌, arith, ◌⊎◌, inl, inr, ◌↔◌, Bool, true, false,
  Bool-cases, Option, none, some, List, [], ◌∷◌, ◌++◌, nat_eq, list_eq, list_beq_iff, ◌==◌,
  if◌then◌else◌,
}
use minikv.Bytes.{Bytes, is_utf8}
use minikv.Text.{starts_with, starts_with-append}
use minikv.Errors.{Result, Error, ok, err}
use minikv.Storage.{KvStore}
use minikv.Metadata.{MetadataLibraries, list_keys}
use minikv.Coordinator.Queries.{
  contains, text_leb, insert_sorted, sort, in_range, filter_range, RangeResponse, value_matches,
  matching, search_keys, range_answer, range_query,
}

starts_with-true : (p t : Bytes) → starts_with p t ≡ true → (rest : Bytes) × (t ≡ p ++ rest)
unfolding starts_with
starts_with-true [] t h = (t, refl)
starts_with-true (p ∷ ps) [] h = ground (arith, h)
starts_with-true (p ∷ ps) (c ∷ t) h =
    let (rest, e) = starts_with-true ps t (ground (arith, h)) in (rest, ground (arith, h, e))

contains-true :
    (needle hay : Bytes)
    → contains needle hay ≡ true
    → (before : Bytes) × (after : Bytes) × (hay ≡ before ++ needle ++ after)
unfolding contains
contains-true needle [] h = let (rest, e) = starts_with-true needle [] h in ([], rest, e)
contains-true needle (c ∷ hay) h = elim (Bool-cases (starts_with needle (c ∷ hay))) [
  | inl here ↦ (let (rest, e) = starts_with-true needle (c ∷ hay) here in ([], rest, e))
  | inr not_here ↦
      (let (before, after, e) = contains-true needle hay (ground (arith, h, not_here)) in
        (c ∷ before, after, ap (λ l. c ∷ l) e))
]

contains_at_start :
    (needle hay : Bytes) → starts_with needle hay ≡ true → contains needle hay ≡ true
unfolding contains
contains_at_start needle [] h = h
contains_at_start needle (c ∷ hay) h = ground (arith, h)

contains-append : (needle before after : Bytes) → contains needle (before ++ needle ++ after) ≡ true
unfolding contains
contains-append needle [] after =
    contains_at_start needle (needle ++ after) (starts_with-append needle after)
contains-append needle (c ∷ before) after = ground (arith, contains-append needle before after)

pub Result-cases :
    {A : Type 0} (r : Result A) → ((a : A) × (r ≡ ok a)) ⊎ ((e : Error) × (r ≡ err e))
Result-cases (ok a) = inl (a, refl)
Result-cases (err e) = inr (e, refl)

-- How often a text stands in a list.
abbrev pub count : Bytes → List Bytes → ℕ
count key [] = 0
count key (k ∷ ks) = (if k == key then 1 else 0) + count key ks

abbrev pub IsSorted : List Bytes → Type 0
IsSorted [] = Unit {0}
IsSorted (x ∷ []) = Unit {0}
IsSorted (x ∷ y ∷ ks) = (text_leb x y ≡ true) × IsSorted (y ∷ ks)

text_leb_total : (x y : Bytes) → text_leb x y ≡ false → text_leb y x ≡ true
text_leb_total [] y h = ground (arith, h)
text_leb_total (x ∷ xs) [] h = refl
text_leb_total (x ∷ xs) (y ∷ ys) h = ground (arith, h, text_leb_total xs ys)

count-insert_sorted :
    (key k : Bytes) (ks : List Bytes)
    → count key (insert_sorted k ks) ≡ (if k == key then 1 else 0) + count key ks
unfolding insert_sorted
count-insert_sorted key k [] = refl
count-insert_sorted key k (x ∷ xs) = ground (arith, count-insert_sorted key k xs)

count-sort : (key : Bytes) (ks : List Bytes) → count key (sort ks) ≡ count key ks
unfolding sort
count-sort key [] = refl
count-sort key (k ∷ ks) = ground (arith, count-insert_sorted key k (sort ks), count-sort key ks)

insert_sorted-IsSorted : (k : Bytes) (ks : List Bytes) → IsSorted ks → IsSorted (insert_sorted k ks)
unfolding insert_sorted
insert_sorted-IsSorted k [] h = tt
insert_sorted-IsSorted k (x ∷ []) h = ground (arith, text_leb_total k x)
insert_sorted-IsSorted k (x ∷ y ∷ ks) (le, h) =
    ground (arith, text_leb_total k x, text_leb_total k y, insert_sorted-IsSorted k (y ∷ ks) h, le)

sort-IsSorted : (ks : List Bytes) → IsSorted (sort ks)
unfolding sort
sort-IsSorted [] = tt
sort-IsSorted (k ∷ ks) = insert_sorted-IsSorted k (sort ks) (sort-IsSorted ks)

count-filter_range :
    (start end key : Bytes) (ks : List Bytes)
    → count key (filter_range start end ks) ≡ (if in_range start end key then count key ks else 0)
unfolding filter_range
count-filter_range start end key [] = ground arith
count-filter_range start end key (k ∷ ks) =
    ground (arith, list_beq_iff k key, count-filter_range start end key ks)

-- The query stands in the text.
abbrev pub Occurs : Bytes → Bytes → Type 0
Occurs needle hay = (before : Bytes) × (after : Bytes) × (hay ≡ before ++ needle ++ after)

Occurs-contains : (needle hay : Bytes) → Occurs needle hay → contains needle hay ≡ true
Occurs-contains needle hay (before, after, e) = rw e (contains-append needle before after)

module _ (store : KvStore) (libs : MetadataLibraries) where
  count-matching :
      (query key : Bytes) (s : store.State) (ks : List Bytes)
      → count key (matching store libs query s ks)
        ≡ (if value_matches query (store.get key s) then count key ks else 0)
  unfolding matching
  count-matching query key s [] = ground arith
  count-matching query key s (k ∷ ks) = elim (Bool-cases (k == key)) [
    | inl same ↦ ground (arith, (list_beq_iff k key).0 same, same, count-matching query key s ks)
    | inr other ↦ ground (arith, other, count-matching query key s ks)
  ]

  value_matches-some :
      (query : Bytes) (found : Option Bytes)
      → value_matches query found ≡ true
      → (value : Bytes) × (found ≡ some value) × (is_utf8 value ≡ true) × Occurs query value
  unfolding value_matches
  value_matches-some query none h = ground (arith, h)
  value_matches-some query (some value) h =
      let (is_text, has) = and-eq-true (is_utf8 value) (contains query value) h in
      (value, refl, is_text, contains-true query value has)

  matches-value :
      (query value : Bytes)
      → is_utf8 value ≡ true
      → Occurs query value
      → value_matches query (some value) ≡ true
  unfolding value_matches
  matches-value query value is_text occurs = rw (is_text, Occurs-contains query value occurs) refl

  -- What a search has to answer with.
  abbrev pub IsFound : Bytes → store.State → List Bytes → Bytes → Type 0
  IsFound query s ks key =
      (0 < count key ks)
      × ((value : Bytes) × (store.get key s ≡ some value)
          × (is_utf8 value ≡ true)
          × Occurs query value)

  matching_iff :
      (query : Bytes) (s : store.State) (ks : List Bytes) (key : Bytes)
      → (0 < count key (matching store libs query s ks)) ↔ IsFound query s ks key
  matching_iff query s ks key =
      let counted = count-matching query key s ks in
      (
        λ there. elim (Bool-cases (value_matches query (store.get key s))) [
          | inl matches ↦ (
            ground (arith, counted, matches, there),
            value_matches-some query (store.get key s) matches,
          )
          | inr differs ↦ ground (arith, counted, differs, there)
        ],
        λ found.
            (let (listed, has) = found in
              let (value, stored, is_text, occurs) = has in
              rw (counted, stored, matches-value query value is_text occurs) listed),
      )

  -- What becomes of a search.
  abbrev pub WhatIsFound : Bytes → store.State → libs.rocks.Db → Type 0
  WhatIsFound query s db =
      ((ks : List Bytes) × (list_keys libs db ≡ ok ks)
        × ((found : List Bytes) × (search_keys store libs query s db ≡ inr found)
            × ((key : Bytes) → (0 < count key found) ↔ IsFound query s ks key)))
      ⊎ ((e : Error) × (list_keys libs db ≡ err e) × (search_keys store libs query s db ≡ inl e))

  -- A search answers with the keys that have metadata and an object whose value is text in which the
  -- query occurs, and with no other key; if the keys cannot be listed it answers with the error.
  pub search_keys_lem :
      (query : Bytes) (s : store.State) (db : libs.rocks.Db) → WhatIsFound query s db
  unfolding search_keys
  search_keys_lem query s db = elim (Result-cases (list_keys libs db)) [
    | inl (ks, listed) ↦ inl (
      ks,
      listed,
      (
        matching store libs query s ks,
        rw (listed, search_keys) refl,
        λ key. matching_iff query s ks key,
      ),
    )
    | inr (e, failed) ↦ inr (e, failed, rw (failed, search_keys) refl)
  ]

  -- What becomes of a range query.
  abbrev pub WhatIsInRange : Bytes → Bytes → Option Bool → libs.rocks.Db → Type 0
  WhatIsInRange start end include_values db =
      ((ks : List Bytes) × (list_keys libs db ≡ ok ks)
        × ((answer : RangeResponse) × (range_query store libs start end include_values db
              ≡ inr answer)
            × (IsSorted answer.keys)
            × ((key : Bytes)
                → count key answer.keys ≡ (if in_range start end key then count key ks else 0))))
      ⊎ ((e : Error) × (list_keys libs db ≡ err e)
          × (range_query store libs start end include_values db ≡ inl e))

  -- A range query answers with the listed keys from its start to its end, as often as each is listed, in
  -- the order of their bytes; if the keys cannot be listed it answers with the error.
  pub range_query_lem :
      (start end : Bytes) (include_values : Option Bool) (db : libs.rocks.Db)
      → WhatIsInRange start end include_values db
  unfolding range_query range_answer
  range_query_lem start end include_values db = elim (Result-cases (list_keys libs db)) [
    | inl (ks, listed) ↦ inl (
      ks,
      listed,
      (
        range_answer store libs start end include_values db ks,
        rw (listed, range_query) refl,
        sort-IsSorted (filter_range start end ks),
        λ key. count-sort key (filter_range start end ks) ∙ count-filter_range start end key ks,
      ),
    )
    | inr (e, failed) ↦ inr (e, failed, rw (failed, range_query) refl)
  ]
