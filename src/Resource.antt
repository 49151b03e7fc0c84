-- ===== src/Resource.antt =====
-- internal/util/resource.go. A quantity is kept as its text, and its `Value` is the library's.
pub mod Heap
use kafka_operator.Prelude.{ℕ, suc, ◌*◌, String, Option, none, some}
use kafka_operator.Prelude.Int.{ℤ, pos, negsuc, quotient}
use kafka_operator.Api.Library.{CpuResource, ResourcesSpec}

-- corev1.ResourceRequirements, by resource
pub record ResourceRequirements : Type 0 where
  pub cpu_limit : String
  pub cpu_request : String
  pub memory_limit : String
  pub memory_request : String

unfoldable pub convert_to_resource_requirements : Option ResourcesSpec → ResourceRequirements
convert_to_resource_requirements resources =
    let cpu : Option CpuResource = elim resources [ none ↦ none | some r ↦ r.cpu ] in
    let cpu_min : String = elim cpu [ none ↦ "100m" | some own ↦ own.min ] in
    let cpu_max : String = elim cpu [ none ↦ "500m" | some own ↦ own.max ] in
    let memory : Option String = elim resources [ none ↦ none | some r ↦ r.memory_limit ] in
    let memory_limit : String = elim memory [ none ↦ "1Gi" | some own ↦ own ] in
    record {
      cpu_limit = cpu_max;
      cpu_request = cpu_min;
      memory_limit = memory_limit;
      memory_request = memory_limit;
    }

-- The division is one of integers, so the result is whole.
unfoldable pub quantity_to_mb : ℤ → ℤ
quantity_to_mb bytes = quotient bytes 1048576

abbrev times : ℕ → ℤ → ℤ
times k (pos n) = pos (k * n)
times k (negsuc n) = neg (k * suc n)
  where
    neg : ℕ → ℤ
    neg = elim [ Prim.Native.Nat.zero ↦ pos 0 | suc m ↦ negsuc m ]

-- `int(mb * 0.8)`, exact for whole megabytes
unfoldable pub eighty_percent : ℤ → ℤ
eighty_percent mb = quotient (times 4 mb) 5
