-- ===== src/Cluster/Images.antt =====
-- internal/controller/cluster.go, `GetImage`: on every image of a cluster's spec.
use kafka_operator.Prelude.{
  String, Option, none, some, ◌≡◌, refl, arith, Result, ok, panic, ◌>>=◌, is_set, if◌then◌else◌,
}
use kafka_operator.Api.Library.{Image, ImageOptions}
use kafka_operator.Api.Names
use kafka_operator.Api.Types.{ImageSpec}
use kafka_operator.Version
use kafka_operator.Cluster.{ClusterReconciler, NewImage, get_image, user_options, with_versions}

-- operator-go documents that its constructor runs the option on options of its own, and makes the
-- image of its arguments and the options.
abbrev pub RunsOption : NewImage → Type 0
RunsOption new_image =
    (default : ImageOptions) × ((name kubedoop_version product_version : String)
        (option : ImageOptions → Result ImageOptions)
      → new_image name kubedoop_version product_version option ≡ (
          option default >>= λ options. ok (record {
            product_name = name;
            kubedoop_version = kubedoop_version;
            product_version = product_version;
            options = options;
          })))

-- The image that a spec asks for, where it asks for one completely.
abbrev pub image_of : Option ImageSpec → Result Image
image_of none = panic
image_of (some spec) = elim spec.pull_policy [
  | none ↦ panic
  | some pull_policy ↦ ok (record {
    product_name = "kafka";
    kubedoop_version =
        if is_set spec.kubedoop_version then spec.kubedoop_version else Version.build_version;
    product_version =
        if is_set spec.product_version then spec.product_version else Names.default_product_version;
    options = record { custom = spec.custom; repo = spec.repo; pull_policy = pull_policy };
  })
]

-- If operator-go's constructor runs its option, `GetImage` panics if the spec has no image or the
-- image has no pull policy, and returns the image otherwise: each version is the user's if it is set
-- and the operator's default if not, and the image name, the repository and the pull policy are the
-- user's. A pull secret makes no difference.
pub get_image-eq_image_of :
    (new_image : NewImage) (r : ClusterReconciler)
    → RunsOption new_image
    → get_image new_image r ≡ image_of r.spec.image
unfolding get_image user_options with_versions
get_image-eq_image_of new_image r (default, runs) = ground (
  arith,
  runs Names.default_product_name Version.build_version Names.default_product_version
      (user_options r),
)

-- The image of a complete spec is made.
pub get_image-Succeeds :
    (new_image : NewImage) (r : ClusterReconciler) (image : ImageSpec) (pull_policy : String)
    → RunsOption new_image
    → r.spec.image ≡ some image
    → image.pull_policy ≡ some pull_policy
    → (made : Image) × (get_image new_image r ≡ ok made)
get_image-Succeeds new_image r image pull_policy runs there policy =
    rw (get_image-eq_image_of new_image r runs, there, policy) (_, refl)
