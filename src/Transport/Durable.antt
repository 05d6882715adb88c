-- ===== src/Transport/Durable.antt =====
-- What is in the bucket when a publication succeeds.
use reporting_platform_local.Common.{
  ℕ, true, Option, some, List, [], ◌∷◌, String, Result, ok, err, string_eq, text_of, ◌≡◌, refl, sym,
  subst, arith, All,
}
use reporting_platform_local.Transport.Paths.{TransportError}
use reporting_platform_local.Transport.Parse.{TransportFile}
use reporting_platform_local.Transport.LocalFiles.{LocalFile}
use reporting_platform_local.Transport.Uploads.{
  PublishedObject, Storage, declare, after_object, publish_objects,
}

-- What a bucket holds, and the measures of a body
pub record View (S Body : Type 0) : Type 0 where
  pub stored : S → String → Option Body
  pub size : Body → ℕ
  pub sha256 : Body → String

-- The promises of the operations. An object that is stored stays as it is, whatever else other
-- publishers do in the meantime; an object that has been published, read or created is stored.
pub record IsStorage {S Body : Type 0} (storage : Storage S Body) (view : View S Body)
    : Type 0 where
  pub publish_keeps :
      (key path : String) (s : S) (j : String) (body : Body)
      → view.stored s j ≡ some body
      → view.stored (storage.publish_object key path s).1 j ≡ some body
  pub exists_keeps :
      (key : String) (s : S) (j : String) (body : Body)
      → view.stored s j ≡ some body
      → view.stored (storage.object_exists key s).1 j ≡ some body
  pub get_keeps :
      (key : String) (s : S) (j : String) (body : Body)
      → view.stored s j ≡ some body
      → view.stored (storage.get_object key s).1 j ≡ some body
  pub put_keeps :
      (key : String) (new : Body) (s : S) (j : String) (body : Body)
      → view.stored s j ≡ some body
      → view.stored (storage.put_new key new s).1 j ≡ some body
  pub published :
      (key path : String) (s : S) (p : PublishedObject)
      → (storage.publish_object key path s).0 ≡ ok p
      → (body : Body) × (view.stored (storage.publish_object key path s).1 key ≡ some body)
        × (view.size body ≡ p.bytes)
        × (view.sha256 body ≡ p.sha256)
  pub read :
      (key : String) (s : S) (body : Body)
      → (storage.get_object key s).0 ≡ ok body
      → view.stored (storage.get_object key s).1 key ≡ some body
  pub created :
      (key : String) (body : Body) (s : S)
      → (storage.put_new key body s).0 ≡ ok true
      → view.stored (storage.put_new key body s).1 key ≡ some body

module _ {S Body : Type 0} (storage : Storage S Body) (view : View S Body)
    (promised : IsStorage storage view) where
  -- The object that a file declares
  abbrev pub IsStored : S → TransportFile → Type 0
  IsStored s f =
      (body : Body) × (view.stored s f.object_key ≡ some body)
      × (view.size body ≡ f.bytes)
      × (view.sha256 body ≡ f.sha256)

  abbrev pub IsKept : S → S → Type 0
  IsKept s after =
      (j : String) (body : Body) → view.stored s j ≡ some body → view.stored after j ≡ some body

  pub IsStored-kept :
      (s after : S) (files : List TransportFile)
      → IsKept s after
      → All (IsStored s) files
      → All (IsStored after) files
  IsStored-kept s after [] kept h = tt
  IsStored-kept s after (f ∷ files) kept ((body, here, size, digest), h) =
      ((body, kept f.object_key body here, size, digest), IsStored-kept s after files kept h)

  -- What holds of both states that the loop may end in
  either_after_object :
      (P : S → Type 0) (f : LocalFile) (key : String)
      (published : Result TransportError PublishedObject) (after : S)
      (rest : Result TransportError (List TransportFile) × S)
      → P after
      → P rest.1
      → P (after_object f key published after rest).1
  either_after_object P f key (err fault) after rest h k = h
  either_after_object P f key (ok p) after rest h k = k

  pub after_object-ok :
      (f : LocalFile) (key : String) (published : Result TransportError PublishedObject) (after : S)
      (rest : Result TransportError (List TransportFile) × S) (declared : List TransportFile)
      → (after_object f key published after rest).0 ≡ ok declared
      → (p : PublishedObject) × (published ≡ ok p)
        × ((others : List TransportFile) × (rest.0 ≡ ok others)
            × (declare f key p ∷ others ≡ declared))
        × ((after_object f key published after rest).1 ≡ rest.1)
  after_object-ok f key (err fault) after rest declared h = cc
  after_object-ok f key (ok p) after (ok others, last) declared h =
      (p, refl, (others, refl, ground (arith, h)), refl)
  after_object-ok f key (ok p) after (err fault, last) declared h = cc

  publish_objects-IsKept :
      (folder : String) (fs : List LocalFile) (s : S)
      → IsKept s (publish_objects storage folder fs s).1
  unfolding publish_objects
  publish_objects-IsKept folder [] s j body h = h
  publish_objects-IsKept folder (f ∷ fs) s j body h =
      let key = text_of (folder ∷ f.name ∷ []) in
      let after = (storage.publish_object key f.path s).1 in
      let first = promised.publish_keeps key f.path s j body h in
      either_after_object (λ s. view.stored s j ≡ some body) f key
        (storage.publish_object key f.path s).0 after (publish_objects storage folder fs after)
        first (publish_objects-IsKept folder fs after j body first)

  pub publish_objects-IsStored :
      (folder : String) (fs : List LocalFile) (s : S) (declared : List TransportFile)
      → (publish_objects storage folder fs s).0 ≡ ok declared
      → All (IsStored (publish_objects storage folder fs s).1) declared
  unfolding publish_objects
  publish_objects-IsStored folder [] s [] h = tt
  publish_objects-IsStored folder [] s (f ∷ declared) h = absurd (ground (arith, h))
  publish_objects-IsStored folder (f ∷ fs) s declared h =
      let key = text_of (folder ∷ f.name ∷ []) in
      let (published, after) = storage.publish_object key f.path s in
      let rest = publish_objects storage folder fs after in
      let (p, e, (others, later, same), last) =
        after_object-ok f key published after rest declared h in
      let (body, here, size, digest) = promised.published key f.path s p e in
      let kept = publish_objects-IsKept folder fs after key body here in
      let stored : All (IsStored rest.1) declared =
        subst (All (IsStored rest.1)) same
          ((body, kept, size, digest), publish_objects-IsStored folder fs after others later) in
      subst (λ s. All (IsStored s) declared) (sym last) stored
