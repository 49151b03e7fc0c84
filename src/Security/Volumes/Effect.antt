-- ===== src/Security/Volumes/Effect.antt =====
-- internal/security/security.go, `AddVolumeAndVolumeMounts`: all that it does to a stateful set.
use mathlib.Core.List.{append_assoc, append-nil, map-append}
use kafka_operator.Prelude.{
  ℕ, zero, suc, String, some, List, [], ◌∷◌, ◌++◌, map, ◌≡◌, refl, ok, is_set, Bool-cases, inl, inr,
  if◌then◌else◌, ap, sym, ◌∙◌,
}
use kafka_operator.Api.Library.{Constants, Container, StatefulSet, Volume, VolumeMount}
use kafka_operator.Security.{
  KafkaSecurity, tls_server_secret_class, tls_internal_secret_class, tls_keystore_server_dir,
  tls_keystore_server_dir_name, tls_keystore_internal_dir, tls_keystore_internal_dir_name,
}
use kafka_operator.Security.Volumes.{
  create_tls_keystore_volume, get_container, mount_at, add_keystore, add_volume_and_volume_mounts,
}

-- A keystore that the pod needs: its secret class, its volume's name, and where it is mounted.
pub record Keystore : Type 0 where
  pub class : String
  pub name : String
  pub dir : String

abbrev pub keystore_if : String → String → String → List Keystore
keystore_if class name dir =
    if is_set class then record { class = class; name = name; dir = dir } ∷ [] else []

-- The server's keystore if a server class is set, then the internal one if an internal class is.
pub keystores_of : KafkaSecurity → List Keystore
keystores_of k =
    keystore_if (tls_server_secret_class k) tls_keystore_server_dir_name tls_keystore_server_dir
    ++ keystore_if (tls_internal_secret_class k) tls_keystore_internal_dir_name
        tls_keystore_internal_dir

abbrev pub mount_of : Keystore → VolumeMount
mount_of s = record { name = s.name; mount_path = s.dir }

abbrev pub volume_of : Constants → KafkaSecurity → String → Keystore → Volume
volume_of c k life s = create_tls_keystore_volume c s.name s.class k.ssl_store_password life

-- The container at the position has the mounts appended, and no other container changes.
abbrev pub mount_all : ℕ → List VolumeMount → List Container → List Container
mount_all i ms [] = []
mount_all zero ms (x ∷ xs) = record x { volume_mounts = x.volume_mounts ++ ms } ∷ xs
mount_all (suc i) ms (x ∷ xs) = x ∷ mount_all i ms xs

mount_all-nil : (i : ℕ) (xs : List Container) → mount_all i [] xs ≡ xs
mount_all-nil i [] = refl
mount_all-nil zero (x ∷ xs) = rw append-nil
mount_all-nil (suc i) (x ∷ xs) = ap (λ r. x ∷ r) (mount_all-nil i xs)

mount_at-mount_all :
    (i : ℕ) (ms : List VolumeMount) (m : VolumeMount) (xs : List Container)
    → mount_at i m (mount_all i ms xs) ≡ mount_all i (ms ++ m ∷ []) xs
mount_at-mount_all i ms m [] = refl
mount_at-mount_all zero ms m (x ∷ xs) = rw append_assoc
mount_at-mount_all (suc i) ms m (x ∷ xs) = ap (λ r. x ∷ r) (mount_at-mount_all i ms m xs)

module _ (c : Constants) (k : KafkaSecurity) (life : String) where
  -- The set with the keystores' volumes behind its own, and their mounts in one container.
  abbrev pub with_keystores : ℕ → List Keystore → StatefulSet → StatefulSet
  with_keystores i ks sts = record sts {
    containers = mount_all i (map mount_of ks) sts.containers;
    volumes = sts.volumes ++ map (volume_of c k life) ks;
  }

  add_keystore-with_keystores :
      (class name dir : String) (i : ℕ) (ks : List Keystore) (sts : StatefulSet)
      → add_keystore c k (some i) class name dir life (with_keystores i ks sts)
        ≡ ok (with_keystores i (ks ++ keystore_if class name dir) sts)
  unfolding add_keystore
  add_keystore-with_keystores class name dir i ks sts = elim (Bool-cases (is_set class)) [
    | inl on ↦ rw (on, map-append, map-append) (rw (mount_at-mount_all, append_assoc))
    | inr off ↦ rw (off, append-nil)
  ]

  with_keystores-nil : (i : ℕ) (sts : StatefulSet) → with_keystores i [] sts ≡ sts
  with_keystores-nil i sts = rw (mount_all-nil, append-nil)

  add_keystore_first :
      (class name dir : String) (i : ℕ) (sts : StatefulSet)
      → add_keystore c k (some i) class name dir life sts
        ≡ ok (with_keystores i (keystore_if class name dir) sts)
  add_keystore_first class name dir i sts =
      ap (add_keystore c k (some i) class name dir life) (sym (with_keystores-nil i sts))
      ∙ add_keystore-with_keystores class name dir i [] sts

  -- If a container is named "kafka", `AddVolumeAndVolumeMounts` returns the stateful set with the
  -- needed keystores' volumes appended to its volumes and their mounts appended to those of the
  -- first such container, in the order server, internal; nothing else changes.
  pub add_volume_and_volume_mounts-with_keystores :
      (i : ℕ) (sts : StatefulSet)
      → get_container sts.containers "kafka" ≡ some i
      → add_volume_and_volume_mounts c k sts life ≡ ok (with_keystores i (keystores_of k) sts)
  unfolding add_volume_and_volume_mounts keystores_of
  add_volume_and_volume_mounts-with_keystores i sts h =
      rw (h, add_keystore_first) (add_keystore-with_keystores _ _ _ i _ sts)
