-- ===== src/Coordinator/Buckets.antt =====
-- src/coordinator/http.rs: an object is read back as it was put, and buckets do not meet.
use minikv.Prelude.{
  ℕ, ◌≡◌, refl, ◌∙◌, arith, Bool, true, false, ◌&&◌, Option, some, List, [], ◌∷◌, ◌++◌, nat_eq,
  list_eq, ◌==◌, if◌then◌else◌,
}
use minikv.Bytes.{Bytes}
use minikv.External.{Blake3}
use minikv.Text.{ascii}
use minikv.Storage.{KvStore}
use minikv.Metadata.{MetadataLibraries}
use minikv.Coordinator.Objects.{full_key, prepare, s3_put_object, s3_get_object, put_key}

-- A bucket's name has no slash.
abbrev pub HasNoSlash : Bytes → Type 0
HasNoSlash [] = Unit {0}
HasNoSlash (c ∷ text) = ((c == 47) ≡ false) × HasNoSlash text

full_key_beq :
    (b b2 k k2 : Bytes)
    → HasNoSlash b
    → HasNoSlash b2
    → (full_key b k == full_key b2 k2) ≡ ((b == b2) && (k == k2))
full_key_beq [] [] k k2 h h2 = refl
full_key_beq [] (c ∷ b2) k k2 h (no_slash, h2) = ground (arith, no_slash)
full_key_beq (c ∷ b) [] k k2 (no_slash, h) h2 = ground (arith, no_slash)
full_key_beq (c ∷ b) (c2 ∷ b2) k k2 (n, h) (n2, h2) = ground (arith, full_key_beq b b2 k k2 h h2)

-- The simulated prepare phase never fails.
prepare-true : (volumes : List Bytes) → prepare volumes ≡ true
unfolding prepare
prepare-true [] = refl
prepare-true (v ∷ vs) = prepare-true vs

module _ (store : KvStore) (libs : MetadataLibraries) (b3 : Blake3) where
  s3_get_object-found :
      (bucket key body : Bytes) (s : store.State)
      → store.get (full_key bucket key) s ≡ some body
      → s3_get_object store libs b3 bucket key s ≡ record { status = 200; body = body }
  unfolding s3_get_object
  s3_get_object-found bucket key body s found = rw (found, s3_get_object) refl

  s3_get_object_same :
      (bucket key : Bytes) (s after : store.State)
      → store.get (full_key bucket key) after ≡ store.get (full_key bucket key) s
      → s3_get_object store libs b3 bucket key after ≡ s3_get_object store libs b3 bucket key s
  unfolding s3_get_object
  s3_get_object_same bucket key s after e = rw (e, s3_get_object) refl

  s3_get_object-put :
      (bucket key bucket2 key2 body : Bytes) (s : store.State) (same : Bool)
      → (full_key bucket key == full_key bucket2 key2) ≡ same
      → s3_get_object store libs b3 bucket2 key2 (store.put (full_key bucket key) body s) ≡ (
          if same
          then record { status = 200; body = body }
          else s3_get_object store libs b3 bucket2 key2 s)
  s3_get_object-put bucket key bucket2 key2 body s true e =
      s3_get_object-found bucket2 key2 body _
        (store.get-put (full_key bucket key) (full_key bucket2 key2) body s ∙ rw e refl)
  s3_get_object-put bucket key bucket2 key2 body s false e =
      s3_get_object_same bucket2 key2 s _
        (store.get-put (full_key bucket key) (full_key bucket2 key2) body s ∙ rw e refl)

  -- Whatever volumes there are, an object that is put is answered with 200 and is what reading its
  -- bucket and key gives, and every other object, of that bucket or of another, is read as before, if
  -- the buckets' names have no slash.
  pub s3_get_object-s3_put_object :
      (timestamp replicas : ℕ) (bucket key bucket2 key2 body : Bytes) (ttl_header : Option Bytes)
      (db : libs.rocks.Db) (s : store.State)
      → HasNoSlash bucket
      → HasNoSlash bucket2
      → let (after, event, response) =
          s3_put_object store libs b3 timestamp replicas bucket key ttl_header body db s in
        (response.status ≡ 200)
        × (s3_get_object store libs b3 bucket2 key2 after ≡ (
            if (bucket == bucket2) && (key == key2)
            then record { status = 200; body = body }
            else s3_get_object store libs b3 bucket2 key2 s))
  unfolding s3_put_object s3_get_object
  s3_get_object-s3_put_object timestamp replicas bucket key bucket2 key2 body ttl_header db s h h2 =
      (
        rw (prepare-true _) refl,
        s3_get_object-put bucket key bucket2 key2 body s _
            (full_key_beq bucket bucket2 key key2 h h2),
      )

  -- A key that is put by `POST /:key` is answered as committed, whatever volumes there are: also with
  -- none, too few, or none that can be listed.
  pub put_key_lem :
      (replicas : ℕ) (key : Bytes) (db : libs.rocks.Db)
      → put_key store libs b3 replicas key db
        ≡ record { status = 200; body = ascii "PUT " ++ key ++ ascii " committed via 2PC" }
  unfolding put_key
  put_key_lem replicas key db = rw (prepare-true _) refl
