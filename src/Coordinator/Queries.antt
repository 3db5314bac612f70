-- ===== src/Coordinator/Queries.antt =====
-- src/coordinator/http.rs: `search_keys`, `range_query` and `admin_export`. The order of texts is that of
-- their bytes.
use minikv.Prelude.{
  ◌⊎◌, inl, inr, Bool, true, false, ◌&&◌, ◌||◌, Option, none, some, List, [], ◌∷◌, ltb, nat_eq,
  ◌==◌, if◌then◌else◌,
}
use minikv.Bytes.{Bytes, is_utf8, from_utf8_lossy}
use minikv.Text.{starts_with}
use minikv.Errors.{Error, ok, err}
use minikv.Storage.{KvStore}
use minikv.Metadata.{MetadataLibraries, KeyMetadata, list_keys, get_key}

-- `str::contains`
unfoldable pub contains : Bytes → Bytes → Bool
unfolding starts_with
contains needle [] = starts_with needle []
contains needle (c ∷ hay) = starts_with needle (c ∷ hay) || contains needle hay

abbrev pub text_leb : Bytes → Bytes → Bool
text_leb [] ys = true
text_leb (x ∷ xs) [] = false
text_leb (x ∷ xs) (y ∷ ys) = ltb x y || ((x == y) && text_leb xs ys)

-- `sort`: each text goes before the first that is no smaller.
unfoldable pub insert_sorted : Bytes → List Bytes → List Bytes
insert_sorted k [] = k ∷ []
insert_sorted k (x ∷ xs) =
    let rest = insert_sorted k xs in if text_leb k x then k ∷ x ∷ xs else x ∷ rest

unfoldable pub sort : List Bytes → List Bytes
unfolding insert_sorted
sort [] = []
sort (k ∷ ks) = insert_sorted k (sort ks)

abbrev pub in_range : Bytes → Bytes → Bytes → Bool
in_range start end k = text_leb start k && text_leb k end

unfoldable pub filter_range : Bytes → Bytes → List Bytes → List Bytes
filter_range start end [] = []
filter_range start end (k ∷ ks) =
    let rest = filter_range start end ks in if in_range start end k then k ∷ rest else rest

-- `values` where the request includes them, with `null` for what has no metadata.
pub record RangeResponse : Type 0 where
  pub keys : List Bytes
  pub values : Option (List (Option KeyMetadata))

-- An object whose value is text that contains the query.
unfoldable pub value_matches : Bytes → Option Bytes → Bool
unfolding contains
value_matches query none = false
value_matches query (some value) = is_utf8 value && contains query value

module _ (store : KvStore) (libs : MetadataLibraries) where
  unfoldable pub matching : Bytes → store.State → List Bytes → List Bytes
  unfolding value_matches
  matching query s [] = []
  matching query s (k ∷ ks) =
      let rest = matching query s ks in
      if value_matches query (store.get k s) then k ∷ rest else rest

  -- The keys that match, or the error that the answer names.
  unfoldable pub search_keys : Bytes → store.State → libs.rocks.Db → Error ⊎ List Bytes
  unfolding matching
  search_keys query s db = elim (list_keys libs db) [
    | ok ks ↦ inr (matching query s ks)
    | err e ↦ inl e
  ]

  unfoldable pub values_of : libs.rocks.Db → List Bytes → List (Option KeyMetadata)
  values_of db [] = []
  values_of db (k ∷ ks) =
      let rest = values_of db ks in
      elim (get_key libs k db) [
        | ok (some meta) ↦ some meta ∷ rest
        | ok none ↦ none ∷ rest
        | err e ↦ none ∷ rest
      ]

  unfoldable pub range_answer :
      Bytes → Bytes → Option Bool → libs.rocks.Db → List Bytes → RangeResponse
  unfolding filter_range sort values_of
  range_answer start end include_values db ks =
      let filtered = sort (filter_range start end ks) in
      record {
        keys = filtered;
        values = elim include_values [
          | some true ↦ some (values_of db filtered)
          | some false ↦ none
          | none ↦ none
        ];
      }

  -- An error is answered with 500.
  unfoldable pub range_query : Bytes → Bytes → Option Bool → libs.rocks.Db → Error ⊎ RangeResponse
  unfolding range_answer
  range_query start end include_values db = elim (list_keys libs db) [
    | err e ↦ inl e
    | ok ks ↦ inr (range_answer start end include_values db ks)
  ]

  unfoldable pub export_lines : store.State → List Bytes → List (Bytes × Bytes)
  export_lines s [] = []
  export_lines s (k ∷ ks) =
      let rest = export_lines s ks in
      elim (store.get k s) [ some value ↦ (k, from_utf8_lossy value) ∷ rest | none ↦ rest ]

  -- The entries that the body streams.
  unfoldable pub admin_export : store.State → libs.rocks.Db → Error ⊎ List (Bytes × Bytes)
  unfolding export_lines
  admin_export s db = elim (list_keys libs db) [ err e ↦ inl e | ok ks ↦ inr (export_lines s ks) ]
