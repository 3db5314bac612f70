-- ===== src/Blob/Removal.antt =====
-- What removing keys in src/volume/blob.rs leaves as it was.
use minikv.Prelude.{list_beq_iff, ℕ, ◌≤◌, ◌≡◌, ◌≢◌, refl, arith, list_eq, nat_eq}
use minikv.Bytes.{Bytes}
use minikv.HashMap.{HasDistinctKeys, lookup, remove}
use minikv.HashMap.Laws.{lookup-remove}
use minikv.Index.{Index, BlobLocation, get_if_valid, is_expired, has_expired}
use minikv.Index
use minikv.Index.Expiry.{get_if_valid-cleanup_expired}
use minikv.Blob.Store.{Libraries, BlobStore, get, delete, cleanup_expired}

lookup-remove_other :
    (key other : Bytes) (ix : Index)
    → key ≢ other
    → lookup other (remove key ix.map) ≡ lookup other ix.map
lookup-remove_other key other ix differ =
    ground (arith, list_beq_iff key other, lookup-remove key other ix.map)

get_if_valid-remove_other :
    (now : ℕ) (key other : Bytes) (ix : Index)
    → key ≢ other
    → get_if_valid now other (Index.remove_key key ix) ≡ get_if_valid now other ix
unfolding get_if_valid is_expired
get_if_valid-remove_other now key other ix differ =
    ground (arith, lookup-remove_other key other ix differ)

module _ (libs : Libraries) where
  -- Two stores with the same filter and segments answer alike where their indexes do.
  get-same_location :
      (now : ℕ) (key : Bytes) (store : BlobStore libs) (index : Index)
      → get_if_valid now key index ≡ get_if_valid now key store.index
      → get libs now key (record store { index = index }) ≡ get libs now key store
  unfolding get
  get-same_location now key store index h = rw (h, get) refl

  -- Deleting a key changes no other key, at any time.
  pub get-delete_other :
      (now : ℕ) (key other : Bytes) (store : BlobStore libs)
      → key ≢ other
      → get libs now other (delete libs key store) ≡ get libs now other store
  unfolding delete get
  get-delete_other now key other store differ =
      rw (get_if_valid-remove_other now key other store.index differ, get) refl

  -- Where no key stands twice in the index, no read of any key at the time of a cleanup or later gives
  -- another answer because of it.
  pub get-cleanup_expired :
      (now later : ℕ) (key : Bytes) (store : BlobStore libs)
      → HasDistinctKeys store.index.map
      → now ≤ later
      → get libs later key (cleanup_expired libs now store).0 ≡ get libs later key store
  unfolding cleanup_expired
  get-cleanup_expired now later key store distinct le =
      get-same_location later key store (Index.cleanup_expired now store.index).0
        (get_if_valid-cleanup_expired now later key store.index distinct le)
