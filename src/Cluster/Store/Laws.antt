-- ===== src/Cluster/Store/Laws.antt =====
-- What `Create` of secrets.go does to the stored secrets.
use yk_talos_management.Prelude.{
  String, [], ◌∷◌, string_eq, Option, none, some, ◌≡◌, ◌≢◌, refl, arith,
}
use yk_talos_management.Prelude.Dict.{text_at}
use yk_talos_management.Effects.Error.{Answer, ok, err}
use yk_talos_management.Effects.Objects.{Secret, OwnerReference, GenerateInput}
use yk_talos_management.Effects.Calls.{Trace}
use yk_talos_management.Effects.Environment.{Env}
use yk_talos_management.Talos.Secrets.{create}
use yk_talos_management.Cluster.Store.{stored, is_refused, is_some, IsGenerated, IsFollowing}

-- The one secret that `Create` writes.
abbrev pub entry : OwnerReference → String → String → String → String → Secret
entry owner name namespace key content = record {
  name = name;
  namespace = namespace;
  owners = owner ∷ [];
  values = (key, content) ∷ [];
}

module _ (env : Env)
    (creates : (s : Secret) (t : Trace)
      → is_refused (env.create_secret s t) ≡ is_some (stored s.namespace s.name t.calls)) where
  -- Other secrets than the one created stay as they were.
  pub create-other :
      (owner : OwnerReference) (name namespace key content other : String) (t : Trace)
      → name ≢ other
      → stored namespace other (create env owner name namespace key content t).1.calls
        ≡ stored namespace other t.calls
  unfolding create
  create-other owner name namespace key content other t h = ground arith

  -- A secret that is there stays as it is.
  pub create-kept :
      (owner : OwnerReference) (name namespace key content : String) (s : Secret) (t : Trace)
      → stored namespace name t.calls ≡ some s
      → stored namespace name (create env owner name namespace key content t).1.calls ≡ some s
  unfolding create
  create-kept owner name namespace key content s t h =
      ground (arith, creates (entry owner name namespace key content) t)

  -- A secret that was not there is afterwards the one created, where the creation succeeds, and
  -- is still not there where it fails.
  pub create-new :
      (owner : OwnerReference) (name namespace key content : String) (t : Trace)
      → stored namespace name t.calls ≡ none
      → stored namespace name (create env owner name namespace key content t).1.calls
        ≡ elim ((create env owner name namespace key content t).0) [
          | ok _ ↦ some (entry owner name namespace key content)
          | err e ↦ none
        ]
  unfolding create
  create-new owner name namespace key content t n =
      ground (arith, creates (entry owner name namespace key content) t)

  pub text_at-entry : (key content : String) → text_at key ((key, content) ∷ []) ≡ content
  text_at-entry key content = ground arith

  -- A config that is generated from the bundle may be created.
  pub create-IsFollowing :
      (generated : GenerateInput → Answer String) (bundle : String) (owner : OwnerReference)
      (name namespace key content : String) (t : Trace)
      → IsFollowing generated key (some bundle) (stored namespace name t.calls)
      → IsGenerated generated bundle content
      → IsFollowing generated key
          (some bundle)
          (stored namespace name (create env owner name namespace key content t).1.calls)
  create-IsFollowing generated bundle owner name namespace key content t h g =
      let of_answer : (a : Answer (Unit {0}))
          → IsFollowing generated key (some bundle)
              (elim a [ ok _ ↦ some (entry owner name namespace key content) | err e ↦ none ]) =
        elim [ ok _ ↦ rw text_at-entry g | err e ↦ tt ] in
      let of_stored : (o : Option Secret)
          → stored namespace name t.calls ≡ o
          → IsFollowing generated key (some bundle)
              (stored namespace name (create env owner name namespace key content t).1.calls) =
        elim [
          | none ↦ λ p.
              rw (create-new owner name namespace key content t p)
                (of_answer (create env owner name namespace key content t).0)
          | some s ↦ λ p. rw (create-kept owner name namespace key content s t p) (rw p at h)
        ] in
      of_stored (stored namespace name t.calls) refl
