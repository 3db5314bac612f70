-- ===== src/Coordinator/Ranges.antt =====
-- src/coordinator/grpc.rs: the range over gRPC, and the range query of src/coordinator/http.rs.
use minikv.Prelude.{
  ◌≡◌, refl, ap, inl, inr, Bool, true, false, Option, none, some, List, [], ◌∷◌, map, nat_eq,
  list_eq, if◌then◌else◌,
}
use minikv.Bytes.{Bytes}
use minikv.Errors.{Result, ok, err}
use minikv.Storage.{KvStore}
use minikv.Metadata.{MetadataLibraries, KeyMetadata, get_key, list_keys}
use minikv.Coordinator.Queries.{
  RangeResponse, filter_range, sort, values_of, range_answer, range_query,
}
use minikv.Coordinator.Service.{
  RangeReply, reply, serialized, range_values, init_global_store, range_of, range,
}
use minikv.Coordinator.Selection.{Result-cases}

module _ (libs : MetadataLibraries) where
  -- The values of an HTTP answer as those of a gRPC answer: what has no metadata is empty there.
  abbrev pub or_empty : Option KeyMetadata → Bytes
  or_empty none = []
  or_empty (some meta) = serialized libs meta

  abbrev pub range_over_grpc : RangeResponse → RangeReply
  range_over_grpc r = record {
    keys = r.keys;
    values = elim r.values [ none ↦ [] | some metas ↦ map or_empty metas ];
  }

  module _ (store : KvStore) where
    range_values-values_of :
        (db : libs.rocks.Db) (ks : List Bytes)
        → range_values libs db ks ≡ map or_empty (values_of store libs db ks)
    unfolding range_values values_of
    range_values-values_of db [] = refl
    range_values-values_of db (k ∷ ks) = go (get_key libs k db) (range_values-values_of db ks)
      where
        go :
            (r : Result (Option KeyMetadata))
            → range_values libs db ks ≡ map or_empty (values_of store libs db ks)
            → elim r [
              | ok (some meta) ↦ serialized libs meta ∷ range_values libs db ks
              | ok none ↦ [] ∷ range_values libs db ks
              | err e ↦ [] ∷ range_values libs db ks
            ]
              ≡ map or_empty (elim r [
                | ok (some meta) ↦ some meta ∷ values_of store libs db ks
                | ok none ↦ none ∷ values_of store libs db ks
                | err e ↦ none ∷ values_of store libs db ks
              ])
        go (ok (some meta)) ih = ap (λ rest. serialized libs meta ∷ rest) ih
        go (ok none) ih = ap (λ rest. [] ∷ rest) ih
        go (err e) ih = ap (λ rest. [] ∷ rest) ih

    reply-range_answer :
        (start end : Bytes) (include_values : Bool) (db : libs.rocks.Db) (ks : List Bytes)
        → reply
            (sort (filter_range start end ks))
            (if include_values then range_values libs db (sort (filter_range start end ks)) else [])
          ≡ range_over_grpc (range_answer store libs start end (some include_values) db ks)
    unfolding range_answer
    reply-range_answer start end true db ks =
        ap (reply (sort (filter_range start end ks)))
          (range_values-values_of db (sort (filter_range start end ks)))
    reply-range_answer start end false db ks = refl

    range_of-range_query :
        (start end : Bytes) (include_values : Bool) (db : libs.rocks.Db)
        → range_of libs start end include_values db
          ≡ (elim (range_query store libs start end (some include_values) db) [
            | inl e ↦ inl e
            | inr answer ↦ inr (range_over_grpc answer)
          ])
    unfolding range_of range_query
    range_of-range_query start end include_values db = elim (Result-cases (list_keys libs db)) [
      | inl (ks, listed) ↦
          rw (listed, range_of, range_query)
            (ap inr (reply-range_answer start end include_values db ks))
      | inr (e, failed) ↦ rw (failed, range_of, range_query) refl
    ]

    -- As long as the global store is not set, every range over gRPC panics. Once it is set to a database,
    -- a range is answered as the range query of the same bounds over HTTP in a coordinator with the
    -- same metadata, with the values or without: the same keys in the same order, the same metadata,
    -- serialized here, with nothing for a key that has none, and the same error.
    pub range-range_query :
        (start end : Bytes) (include_values : Bool) (db : libs.rocks.Db)
        → (range libs start end include_values none ≡ none)
          × (range libs start end include_values (init_global_store libs db none)
              ≡ some (elim (range_query store libs start end (some include_values) db) [
                | inl e ↦ inl e
                | inr answer ↦ inr (range_over_grpc answer)
              ]))
    unfolding range init_global_store
    range-range_query start end include_values db =
        (refl, ap some (range_of-range_query start end include_values db))
