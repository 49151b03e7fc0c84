-- ===== src/Security/Volumes/Mounts.antt =====
-- internal/security/security.go, `AddVolumeAndVolumeMounts`: when it panics, what it adds, and that
-- every mount keeps a volume behind it.
use kafka_operator.Prelude.{
  ℕ, zero, suc, String, true, ◌||◌, Option, none, List, [], ◌∷◌, ◌++◌, map, ◌≡◌, ◌≢◌, ◌↔◌, arith,
  ok, panic, is_set, ◌==◌, ==_refl, Bool-cases, Option-cases, inl, inr, >>=-eq-ok, err, subst,
  Result-ok_injective,
}
use mathlib.Core.List.{map-append}
use kafka_operator.Prelude.Lists.{All, All-append, All-map, contains, contains-append}
use kafka_operator.Api.Library.{Constants, Container, StatefulSet, Volume, VolumeMount}
use kafka_operator.Security.{KafkaSecurity, tls_server_secret_class, tls_internal_secret_class}
use kafka_operator.Security.Volumes.{
  create_tls_keystore_volume, add_volume, get_container, mount_at, add_keystore,
  add_volume_and_volume_mounts,
}

-- the names that a mount of the pod can refer to: its volumes and its volume claims
abbrev pub volume_names : StatefulSet → List String
volume_names sts =
    map (λ (v : Volume). v.name) sts.volumes ++ map (λ p. p.name) sts.volume_claim_templates

-- Every mount of the container refers to one of the names.
abbrev pub MountsIn : List String → Container → Type 0
MountsIn names x = All (λ m. contains names m.name ≡ true) x.volume_mounts

-- Every mount of every container refers to a volume or a volume claim.
abbrev pub IsBacked : StatefulSet → Type 0
IsBacked sts = All (MountsIn (volume_names sts)) sts.containers

contains-volume_names-add_volume :
    (v : Volume) (sts : StatefulSet) (s : String)
    → contains (volume_names (add_volume v sts)) s ≡ (contains (volume_names sts) s || v.name == s)
unfolding add_volume contains
contains-volume_names-add_volume v sts s =
    rw (map-append, contains-append, contains-append, contains-append) (ground arith)

MountsIn-add_volume :
    (v : Volume) (sts : StatefulSet) (x : Container)
    → MountsIn (volume_names sts) x
    → MountsIn (volume_names (add_volume v sts)) x
MountsIn-add_volume v sts x h =
    All-map (λ m e. rw contains-volume_names-add_volume (rw e)) x.volume_mounts h

add_volume-IsBacked : (v : Volume) (sts : StatefulSet) → IsBacked sts → IsBacked (add_volume v sts)
unfolding add_volume
add_volume-IsBacked v sts h = All-map (MountsIn-add_volume v sts) sts.containers h

mount_at-MountsIn :
    (names : List String) (i : ℕ) (m : VolumeMount) (xs : List Container)
    → contains names m.name ≡ true
    → All (MountsIn names) xs
    → All (MountsIn names) (mount_at i m xs)
mount_at-MountsIn names i m [] e h = tt
mount_at-MountsIn names zero m (x ∷ xs) e (hx, h) =
    (All-append (λ m. contains names m.name ≡ true) x.volume_mounts (m ∷ []) hx (e, tt), h)
mount_at-MountsIn names (suc i) m (x ∷ xs) e (hx, h) = (hx, mount_at-MountsIn names i m xs e h)

module _ (c : Constants) (k : KafkaSecurity) (name dir life class : String) where
  keystore : Volume
  keystore = create_tls_keystore_volume c name class k.ssl_store_password life

  keystore-name : keystore.name ≡ name
  unfolding keystore create_tls_keystore_volume
  keystore-name = ground arith

  keystore_mounted :
      (sts : StatefulSet) → contains (volume_names (add_volume keystore sts)) name ≡ true
  keystore_mounted sts =
      rw contains-volume_names-add_volume (ground (arith, keystore-name, ==_refl name))

  -- One keystore keeps every mount backed: its volume comes with its mount.
  add_keystore-IsBacked :
      (at : Option ℕ) (sts sts' : StatefulSet)
      → add_keystore c k at class name dir life sts ≡ ok sts'
      → IsBacked sts
      → IsBacked sts'
  unfolding add_keystore keystore
  add_keystore-IsBacked at sts sts' e h = elim (Bool-cases (is_set class)) [
    | inl on ↦ elim (Option-cases at) [
      | inl missing ↦ absurd (ground arith)
      | inr (i, found) ↦ subst IsBacked (Result-ok_injective (rw (on, found) at e)) (
          mount_at-MountsIn (volume_names (add_volume keystore sts)) i _ sts.containers
            (keystore_mounted sts) (add_volume-IsBacked keystore sts h))
    ]
    | inr off ↦ subst IsBacked (Result-ok_injective (rw off at e)) h
  ]

  -- It panics exactly if a class is set and there is no container to mount it in.
  add_keystore-eq-panic_iff :
      (at : Option ℕ) (sts : StatefulSet)
      → (add_keystore c k at class name dir life sts ≡ panic)
        ↔ ((at ≡ none) × (is_set class ≡ true))
  unfolding add_keystore
  add_keystore-eq-panic_iff at sts = ground arith

  add_keystore-ne-err :
      (at : Option ℕ) (sts : StatefulSet) (m : String)
      → add_keystore c k at class name dir life sts ≢ err m
  unfolding add_keystore
  add_keystore-ne-err at sts m = ground arith

module _ (c : Constants) (k : KafkaSecurity) (life : String) where
  -- If every mount of the stateful set has a volume or a volume claim behind it, so has every mount
  -- of the set that `AddVolumeAndVolumeMounts` returns.
  pub add_volume_and_volume_mounts-IsBacked :
      (sts sts' : StatefulSet)
      → add_volume_and_volume_mounts c k sts life ≡ ok sts'
      → IsBacked sts
      → IsBacked sts'
  unfolding add_volume_and_volume_mounts
  add_volume_and_volume_mounts-IsBacked sts sts' e h =
      let (served, first, second) = >>=-eq-ok _ _ e in
      add_keystore-IsBacked c k _ _ life _ _ served sts' second
        (add_keystore-IsBacked c k _ _ life _ _ sts served first h)

  -- `AddVolumeAndVolumeMounts` never returns an error, and it panics exactly if a server or an
  -- internal secret class is set and no container is named "kafka".
  pub add_volume_and_volume_mounts-eq-panic_iff :
      (sts : StatefulSet)
      → (add_volume_and_volume_mounts c k sts life ≡ panic) ↔ (
          (get_container sts.containers "kafka" ≡ none)
          × ((is_set (tls_server_secret_class k) || is_set (tls_internal_secret_class k)) ≡ true))
  unfolding add_volume_and_volume_mounts add_keystore
  add_volume_and_volume_mounts-eq-panic_iff sts = ground arith
