-- ===== src/Resource/Heap.antt =====
-- internal/util/resource.go and internal/controller/container.go: the heap for a memory limit.
use Prim.Native.Nat.{ℕ, ◌+◌, ◌*◌, ◌/◌, ◌≤◌, ◌<◌}
use kafka_operator.Prelude.{◌≡◌, refl, arith}
use kafka_operator.Prelude.Int.{pos, quotient}
use kafka_operator.Resource.{eighty_percent, quantity_to_mb}

-- The heap in megabytes for a memory limit in bytes is a whole number that takes at most four fifths
-- of the limit, and less than eight fifths of a megabyte below them.
pub eighty_percent-bounds :
    (bytes : ℕ)
    → (heap : ℕ) × (eighty_percent (quantity_to_mb (pos bytes)) ≡ pos heap)
      × (5 * (1048576 * heap) ≤ 4 * bytes)
      × (4 * bytes < 1048576 * (5 * heap + 8))
unfolding eighty_percent quantity_to_mb quotient
eighty_percent-bounds bytes = ((4 * (bytes / 1048576)) / 5, refl, omega arith, omega arith)
