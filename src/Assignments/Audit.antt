-- ===== src/Assignments/Audit.antt =====
-- apps/web/src/features/assignments/audit.ts.
use heritage_philippines_v.Prelude.{ℕ, Option, none, some, [], ◌∷◌, ◌++◌}
use heritage_philippines_v.Crm.Model.{
  Assignment, AuditValue, AuditState, absent, identifier, instant, role_name,
}
use heritage_philippines_v.Assignments.Model.{TargetKind, lead, client, booking}
use Prim.Native.String.{String}

abbrev pub entity_type : TargetKind → String
entity_type lead = "Lead"
entity_type client = "Client"
entity_type booking = "Booking"

abbrev pub assigned_action : TargetKind → String
assigned_action lead = "LEAD_ASSIGNMENT_CREATED"
assigned_action client = "CLIENT_ASSIGNMENT_CREATED"
assigned_action booking = "BOOKING_ASSIGNMENT_CREATED"

abbrev pub reassigned_action : TargetKind → String
reassigned_action lead = "LEAD_ASSIGNMENT_REPLACED"
reassigned_action client = "CLIENT_ASSIGNMENT_REPLACED"
reassigned_action booking = "BOOKING_ASSIGNMENT_REPLACED"

abbrev pub ended_action : TargetKind → String
ended_action lead = "LEAD_ASSIGNMENT_ENDED"
ended_action client = "CLIENT_ASSIGNMENT_ENDED"
ended_action booking = "BOOKING_ASSIGNMENT_ENDED"

abbrev or_null : Option ℕ → AuditValue
or_null none = absent
or_null (some id) = identifier id

abbrev instant_or_null : Option ℕ → AuditValue
instant_or_null none = absent
instant_or_null (some t) = instant t

unfoldable pub sanitize_assignment_snapshot : Assignment → AuditState
sanitize_assignment_snapshot a =
    ("id", identifier a.id)
    ∷ ("assignedStaffId", identifier a.assigned_staff_id)
    ∷ ("assignedByUserId", identifier a.assigned_by_user_id)
    ∷ ("leadId", or_null a.lead_id)
    ∷ ("clientId", or_null a.client_id)
    ∷ ("bookingId", or_null a.booking_id)
    ∷ ("endedAt", instant_or_null a.ended_at)
    ∷ []

unfoldable pub sanitize_role_assignment_snapshot : Assignment → AuditState
unfolding sanitize_assignment_snapshot
sanitize_role_assignment_snapshot a =
    sanitize_assignment_snapshot a ++ (("role", role_name a.role) ∷ [])
