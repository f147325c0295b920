-- ===== src/Caldav/RoundTrip.antt =====
-- The two directions of a recurrence rule against each other, kind by kind.
use eas_bridge.Prelude.{◌≡◌, some}
use eas_bridge.Eas.{Recurrence}
use eas_bridge.Caldav.Rules.{eas_recurrence_to_rrule, rrule_to_eas_recurrence}
use eas_bridge.Caldav.Reading.{kept_as}

module _ (r : Recurrence) where
  abbrev Returns : Type 0
  Returns = rrule_to_eas_recurrence (eas_recurrence_to_rrule r) ≡ some (kept_as r r.kind)
