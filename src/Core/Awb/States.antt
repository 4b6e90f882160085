-- ===== src/Core/Awb/States.antt =====
-- internal/core/awb/awb.go: the states of a parcel, and the table of allowed transitions.
use dashfetchr.Base.{Bool, true, false}

pub data State : Type 0 where
  created at_locker scheduled dispatched in_transit delivered failed cancelled returned : State

-- `allowedTransitions[from][to]`; a missing key reads false.
unfoldable pub allowed_transitions : State → State → Bool
allowed_transitions created at_locker = true
allowed_transitions created dispatched = true
allowed_transitions created cancelled = true
allowed_transitions at_locker scheduled = true
allowed_transitions at_locker cancelled = true
allowed_transitions at_locker returned = true
allowed_transitions scheduled dispatched = true
allowed_transitions scheduled cancelled = true
allowed_transitions scheduled at_locker = true
allowed_transitions dispatched in_transit = true
allowed_transitions dispatched failed = true
allowed_transitions dispatched cancelled = true
allowed_transitions in_transit delivered = true
allowed_transitions in_transit failed = true
allowed_transitions failed returned = true
allowed_transitions failed dispatched = true
allowed_transitions failed cancelled = true
allowed_transitions returned scheduled = true
allowed_transitions returned cancelled = true
allowed_transitions _ _ = false
