-- ===== src/Bookings/Pages.antt =====
-- apps/web/src/features/bookings/service.ts and repository.ts, the client portal's list of bookings:
-- a client reads their own bookings that are past DRAFT, ten to a page.
pub mod Slices
use heritage_philippines_v.Prelude.{
  ℕ, ◌+◌, ◌-◌, ◌*◌, Bool, not, Option, none, some, List, [], ◌∷◌, map, ◌&&◌, ◌==◌, leb, ltb, length,
  select, if◌then◌else◌,
}
use heritage_philippines_v.Payments.Model.{
  Text, BookingStatus, draft, pending_confirmation, confirmed, in_preparation, documents_required,
  visa_processing, ready_for_travel, in_progress, completed, cancelled,
}
use heritage_philippines_v.Leads.Reads.{take_rows, page_of}
use heritage_philippines_v.Bookings.Transitions.{same_booking_status}
use heritage_philippines_v.Bookings.Model.{BookingRecord, BookingStore}
use heritage_philippines_v.Transaction.{Result, ok, err, domain}
use heritage_philippines_v.Payments.Model.{Role, AuthenticatedUser}
use heritage_philippines_v.Crm.Store.{CrmStore}
use heritage_philippines_v.Assignments.Model.{role_eq}
use heritage_philippines_v.Assignments.Authorization.{can_access_client}
use heritage_philippines_v.Bookings.Model.{BookingErrorCode, role_not_permitted, booking_forbidden}
use Prim.Native.Nat.{◌/◌}
use Prim.Native.String.{String}

abbrev pub client_booking_list_page_size : ℕ
client_booking_list_page_size = 10

-- `Number.MAX_SAFE_INTEGER`
abbrev pub max_safe_integer : ℕ
max_safe_integer = 9007199254740991

-- A status that a client's row can have has a label; `DRAFT` has none.
abbrev pub client_booking_status_label : BookingStatus → Option String
client_booking_status_label draft = none
client_booking_status_label pending_confirmation = some "Pending confirmation"
client_booking_status_label confirmed = some "Confirmed"
client_booking_status_label in_preparation = some "In preparation"
client_booking_status_label documents_required = some "Documents required"
client_booking_status_label visa_processing = some "Visa processing"
client_booking_status_label ready_for_travel = some "Ready for travel"
client_booking_status_label in_progress = some "Travel in progress"
client_booking_status_label completed = some "Completed"
client_booking_status_label cancelled = some "Cancelled"

pub record ClientBookingPreviewItem : Type 0 where
  pub booking_reference : Text
  pub status_label : Option String
  pub travel_start_date : Option ℕ
  pub travel_end_date : Option ℕ
  pub destination : Option Text
  pub tour_package_name : Option Text

abbrev pub preview_item : BookingRecord → ClientBookingPreviewItem
preview_item b = record {
  booking_reference = b.booking_reference;
  status_label = client_booking_status_label b.status;
  travel_start_date = b.travel_start_date;
  travel_end_date = b.travel_end_date;
  destination = b.destination;
  tour_package_name = b.tour_package_name;
}

pub data ClientBookingListPageResult : Type 0 where
  redirect : ClientBookingListPageResult
  page : List ClientBookingPreviewItem → ℕ → Bool → ClientBookingListPageResult

abbrev pub is_client_row : ℕ → BookingRecord → Bool
is_client_row client_id b = b.client_id == client_id && not (same_booking_status b.status draft)

unfoldable pub count_client_bookings : ℕ → BookingStore → ℕ
count_client_bookings client_id s = length (select (is_client_row client_id) s.bookings)

-- `by_newest` is the database's order by `createdAt`, the newest first, and by id.
unfoldable pub find_client_booking_list_page :
    (List BookingRecord → List BookingRecord) → ℕ → ℕ → ℕ → BookingStore → List BookingRecord
find_client_booking_list_page by_newest client_id skip take s =
    page_of skip take (by_newest (select (is_client_row client_id) s.bookings))

unfoldable pub to_client_booking_list_page : List BookingRecord → ℕ → ClientBookingListPageResult
to_client_booking_list_page rows number =
    let has_next = ltb client_booking_list_page_size (length rows) in
    page
      (map preview_item (if has_next then take_rows client_booking_list_page_size rows else rows))
      number has_next

abbrev pub page_or_redirect : List BookingRecord → ℕ → ClientBookingListPageResult
page_or_redirect [] number = redirect
page_or_redirect (b ∷ rows) number = to_client_booking_list_page (b ∷ rows) number

abbrev pub requested_page : ℕ → ℕ
requested_page number = if leb number max_safe_integer && leb 1 number then number else 1

-- `Math.max(1, Math.ceil(total / pageSize))`
abbrev pub last_page : ℕ → ℕ
last_page total =
    let pages = (total + 9) / client_booking_list_page_size in if leb 1 pages then pages else 1

-- `getClientBookingListPage` after its check of access; the rows are counted in one store and read
-- in a later one.
unfoldable pub client_booking_list_page :
    (List BookingRecord → List BookingRecord)
    → BookingStore
    → BookingStore
    → ℕ
    → ℕ
    → ClientBookingListPageResult
unfolding count_client_bookings find_client_booking_list_page to_client_booking_list_page
client_booking_list_page by_newest counted s client_id number =
    let asked = requested_page number in
    if asked == 1
    then to_client_booking_list_page
        (find_client_booking_list_page by_newest client_id 0 (client_booking_list_page_size + 1) s)
        1
    else if ltb (last_page (count_client_bookings client_id counted)) asked
    then redirect
    else page_or_redirect
        (find_client_booking_list_page by_newest client_id
          ((asked - 1) * client_booking_list_page_size) (client_booking_list_page_size + 1) s)
        asked

-- The whole call: the role, then the client's own profile (`canAccessClient`), then the page.
unfoldable pub get_client_booking_list_page :
    (List BookingRecord → List BookingRecord)
    → CrmStore
    → BookingStore
    → BookingStore
    → AuthenticatedUser
    → ℕ
    → ℕ
    → Result BookingErrorCode ClientBookingListPageResult
unfolding client_booking_list_page
get_client_booking_list_page by_newest crm counted s actor client_id number =
    if not (role_eq actor.role Role.client)
    then err (domain role_not_permitted)
    else if not (can_access_client actor client_id crm)
    then err (domain booking_forbidden)
    else ok (client_booking_list_page by_newest counted s client_id number)
