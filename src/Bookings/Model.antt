-- ===== src/Bookings/Model.antt =====
-- apps/web/src/features/bookings/errors.ts and audit.ts, and the tables that the staff's side of
-- bookings reads and writes.
use heritage_philippines_v.Prelude.{ℕ, Option, List}
use heritage_philippines_v.Payments.Model.{Text, BookingStatus}
use heritage_philippines_v.Crm.Model.{Assignment}
use Prim.Native.String.{String}

pub data BookingErrorCode : Type 0 where
  role_not_permitted proposal_version_not_found proposal_version_forbidden : BookingErrorCode
  proposal_version_not_accepted booking_not_found booking_forbidden : BookingErrorCode
  booking_conflict invalid_status_transition : BookingErrorCode

-- `BookingError.status`
unfoldable pub status_by_code : BookingErrorCode → ℕ
status_by_code role_not_permitted = 403
status_by_code proposal_version_not_found = 404
status_by_code proposal_version_forbidden = 403
status_by_code proposal_version_not_accepted = 409
status_by_code booking_not_found = 404
status_by_code booking_forbidden = 403
status_by_code booking_conflict = 409
status_by_code invalid_status_transition = 409

pub record BookingRecord : Type 0 where
  pub id : ℕ
  pub booking_reference : Text
  pub client_id : ℕ
  pub proposal_version_id : ℕ
  pub status : BookingStatus
  pub tour_package_name : Option Text
  pub destination : Option Text
  pub travel_start_date : Option ℕ
  pub travel_end_date : Option ℕ
  pub traveler_count : Option ℕ
  pub included_services : Option Text
  pub excluded_services : Option Text
  pub special_requests : Option Text
  pub internal_notes : Option Text
  pub client_visible_notes : Option Text
  pub created_at : ℕ
  pub updated_at : ℕ

pub record BookingStatusHistory : Type 0 where
  pub id : ℕ
  pub booking_id : ℕ
  pub previous_status : Option BookingStatus
  pub new_status : BookingStatus
  pub changed_by_user_id : ℕ

pub data ProposalResponseType : Type 0 where
  accept decline request_changes : ProposalResponseType

-- A version with its proposal's client and the response of its acceptance, if it has one.
pub record ProposalVersion : Type 0 where
  pub id : ℕ
  pub client_id : ℕ
  pub response_type : Option ProposalResponseType

pub record AuditBookingSnapshot : Type 0 where
  pub id : ℕ
  pub booking_reference : Text
  pub client_id : ℕ
  pub proposal_version_id : ℕ
  pub status : BookingStatus

pub data BookingSnapshot : Type 0 where
  whole : AuditBookingSnapshot → BookingSnapshot
  only_status : BookingStatus → BookingSnapshot

pub record BookingAudit : Type 0 where
  pub actor_id : ℕ
  pub action : String
  pub entity_type : String
  pub entity_id : ℕ
  pub before_state : Option BookingSnapshot
  pub after_state : Option BookingSnapshot

abbrev pub booking_created_action : String
booking_created_action = "BOOKING_CREATED"

abbrev pub booking_status_changed_action : String
booking_status_changed_action = "BOOKING_STATUS_CHANGED"

abbrev pub booking_audit_entity_type : String
booking_audit_entity_type = "Booking"

unfoldable pub sanitize_booking_snapshot : BookingRecord → BookingSnapshot
sanitize_booking_snapshot b = whole (record {
  id = b.id;
  booking_reference = b.booking_reference;
  client_id = b.client_id;
  proposal_version_id = b.proposal_version_id;
  status = b.status;
})

unfoldable pub sanitize_booking_status_snapshot : BookingStatus → BookingSnapshot
sanitize_booking_status_snapshot status = only_status status

-- One list for each table, the newest row first.
pub record BookingStore : Type 0 where
  pub bookings : List BookingRecord
  pub history : List BookingStatusHistory
  pub versions : List ProposalVersion
  pub assignments : List Assignment
  pub audit_log : List BookingAudit

-- The `randomUUID()` of each use in a call, `randomBytes(10)`, `new Date()`, and the database's order
-- of bookings by `createdAt` and id, the newest first.
pub record BookingRuntime : Type 0 where
  pub random_uuid : ℕ → ℕ
  pub random_bytes : List ℕ
  pub now : ℕ
  pub by_newest : List BookingRecord → List BookingRecord
