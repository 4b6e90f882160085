-- ===== src/Routing/Dimensions.antt =====
-- internal/core/routing/engine.go: exceedsDims and sortDesc.
use dashfetchr.Base.{Bool, ◌||◌, if◌then◌else◌}
use dashfetchr.Base.Float64.{lt_f}
use dashfetchr.Ports.Carrier.{Package, Dimensions}

-- The swaps of the two nested loops, in their order: (0,1), (0,2), (1,2).
abbrev swap01 : Dimensions → Dimensions
swap01 a = if lt_f a.d0 a.d1 then record { d0 = a.d1; d1 = a.d0; d2 = a.d2 } else a

abbrev swap02 : Dimensions → Dimensions
swap02 a = if lt_f a.d0 a.d2 then record { d0 = a.d2; d1 = a.d1; d2 = a.d0 } else a

abbrev swap12 : Dimensions → Dimensions
swap12 a = if lt_f a.d1 a.d2 then record { d0 = a.d0; d1 = a.d2; d2 = a.d1 } else a

unfoldable pub sort_desc : Dimensions → Dimensions
sort_desc a = swap12 (swap02 (swap01 a))

unfoldable pub exceeds_dims : Package → Dimensions → Bool
unfolding sort_desc
exceeds_dims p max =
    let dims = sort_desc (record { d0 = p.length_cm; d1 = p.width_cm; d2 = p.height_cm }) in
    let maxs = sort_desc max in lt_f maxs.d0 dims.d0 || lt_f maxs.d1 dims.d1 || lt_f maxs.d2 dims.d2
