-- ===== src/Bookings/Pages/Slices.antt =====
-- The pages of a client's bookings as slices of the whole list.
use heritage_philippines_v.Prelude.{
  ℕ, zero, suc, Bool, ◌-◌, ◌*◌, ◌≤◌, ◌<◌, true, List, [], ◌∷◌, ◌≡◌, refl, sym, subst, ap, ◌∙◌, map,
  ◌==◌, ◌&&◌, ◌||◌, not, false, ltb, length, select, arith, if◌then◌else◌, Bool-cases, inl, inr,
}
use heritage_philippines_v.Leads.Reads.{take_rows, drop_rows, page_of}
use heritage_philippines_v.Bookings.Model.{BookingRecord, BookingStore}
use heritage_philippines_v.Transaction.{ok}
use heritage_philippines_v.Payments.Model.{
  Role, AuthenticatedUser, BookingStatus, draft, pending_confirmation, confirmed, in_preparation,
  documents_required, visa_processing, ready_for_travel, in_progress, completed, cancelled,
}
use heritage_philippines_v.Bookings.Transitions.{same_booking_status}
use heritage_philippines_v.Crm.Store.{CrmStore}
use heritage_philippines_v.Assignments.Model.{role_eq}
use heritage_philippines_v.Assignments.Authorization.{can_access_client}
use heritage_philippines_v.Bookings.Pages.{
  max_safe_integer, ClientBookingPreviewItem, client_booking_status_label, preview_item,
  ClientBookingListPageResult, redirect, page, is_client_row, count_client_bookings,
  find_client_booking_list_page, to_client_booking_list_page, page_or_redirect, requested_page,
  last_page, client_booking_list_page, get_client_booking_list_page,
}

take_again :
    {A : Type 0} (n : ℕ) (xs : List A) → take_rows n (take_rows (suc n) xs) ≡ take_rows n xs
take_again zero [] = refl
take_again zero (x ∷ xs) = refl
take_again (suc n) [] = refl
take_again (suc n) (x ∷ xs) = ap (λ ys. x ∷ ys) (take_again n xs)

-- One row more than fits says whether a row is left.
more_left :
    {A : Type 0} (n : ℕ) (xs : List A) → ltb n (length (take_rows (suc n) xs)) ≡ ltb n (length xs)
more_left zero [] = refl
more_left zero (x ∷ xs) = ground arith
more_left (suc n) [] = refl
more_left (suc n) (x ∷ xs) = ground (arith, more_left n xs)

take_all :
    {A : Type 0} (n : ℕ) (xs : List A)
    → ltb n (length xs) ≡ false
    → take_rows (suc n) xs ≡ take_rows n xs
take_all zero [] h = refl
take_all zero (x ∷ xs) h = ground arith
take_all (suc n) [] h = refl
take_all (suc n) (x ∷ xs) h = ap (λ ys. x ∷ ys) (take_all n xs (ground arith))

length-drop_rows : {A : Type 0} (n : ℕ) (xs : List A) → length (drop_rows n xs) ≡ length xs - n
length-drop_rows zero xs = omega arith
length-drop_rows (suc n) [] = omega arith
length-drop_rows (suc n) (x ∷ xs) = omega (arith, length-drop_rows n xs)

to_page-rows :
    (xs : List BookingRecord) (number : ℕ)
    → to_client_booking_list_page (take_rows 11 xs) number
      ≡ page (map preview_item (take_rows 10 xs)) number (ltb 10 (length xs))
unfolding to_client_booking_list_page
to_page-rows xs number = elim (Bool-cases (ltb 10 (length xs))) [
  | inl more ↦ rw (more_left 10 xs, more, take_again 10 xs) refl
  | inr none_left ↦ rw (more_left 10 xs, none_left, take_all 10 xs none_left) refl
]

shown :
    (xs : List BookingRecord) (number : ℕ)
    → 0 < length xs
    → page_or_redirect (take_rows 11 xs) number
      ≡ to_client_booking_list_page (take_rows 11 xs) number
shown [] number h = ground arith
shown (x ∷ xs) number h = refl

-- A status that clients see: every one but DRAFT.
abbrev pub is_past_draft : BookingStatus → Bool
is_past_draft draft = false
is_past_draft pending_confirmation = true
is_past_draft confirmed = true
is_past_draft in_preparation = true
is_past_draft documents_required = true
is_past_draft visa_processing = true
is_past_draft ready_for_travel = true
is_past_draft in_progress = true
is_past_draft completed = true
is_past_draft cancelled = true

-- What a client is shown of a booking.
abbrev pub shown_item : BookingRecord → ClientBookingPreviewItem
shown_item b = record {
  booking_reference = b.booking_reference;
  status_label = client_booking_status_label b.status;
  travel_start_date = b.travel_start_date;
  travel_end_date = b.travel_end_date;
  destination = b.destination;
  tour_package_name = b.tour_package_name;
}

-- The page with the number `number` of the rows, ten to a page: the first, or one that has a row.
abbrev pub page_at : List BookingRecord → ℕ → ClientBookingListPageResult
page_at rows number =
    if number == 1 || ltb ((number - 1) * 10) (length rows)
    then page (map shown_item (take_rows 10 (drop_rows ((number - 1) * 10) rows))) number
        (ltb (number * 10) (length rows))
    else redirect

-- The client's bookings that are past DRAFT.
abbrev pub visible_bookings : ℕ → List BookingRecord → List BookingRecord
visible_bookings client_id bookings =
    select (λ b. b.client_id == client_id && is_past_draft b.status) bookings

past_draft_lem :
    (status : BookingStatus) → not (same_booking_status status draft) ≡ is_past_draft status
past_draft_lem status = grind arith

select-visible :
    (client_id : ℕ) (bookings : List BookingRecord)
    → select (is_client_row client_id) bookings ≡ visible_bookings client_id bookings
select-visible client_id [] = refl
select-visible client_id (b ∷ bookings) =
    rw (past_draft_lem b.status, select-visible client_id bookings) refl

abbrev asked_page : ℕ → List BookingRecord → ℕ → ClientBookingListPageResult
asked_page total rows asked =
    if asked == 1
    then to_client_booking_list_page (page_of 0 11 rows) 1
    else if ltb (last_page total) asked
    then redirect
    else page_or_redirect (page_of ((asked - 1) * 10) 11 rows) asked

has_rows :
    (total k : ℕ) → ltb (last_page total) (suc (suc k)) ≡ false → (suc (suc k) - 1) * 10 < total
has_rows total k h = ground arith

positive : (total k : ℕ) → (suc (suc k) - 1) * 10 < total → 0 < total - (suc (suc k) - 1) * 10
positive total k h = omega arith

in_pages :
    (total k : ℕ)
    → ltb (last_page total) (suc (suc k)) ≡ false
    → ltb ((suc (suc k) - 1) * 10) total ≡ true
in_pages total k h = ground arith

past_pages :
    (total k : ℕ)
    → ltb (last_page total) (suc (suc k)) ≡ true
    → ltb ((suc (suc k) - 1) * 10) total ≡ false
past_pages total k h = ground arith

more_than : (total k : ℕ) → ltb 10 (total - (suc (suc k) - 1) * 10) ≡ ltb (suc (suc k) * 10) total
more_than total k = ground arith

not_first : (k : ℕ) → (suc (suc k) == 1) ≡ false
not_first k = ground arith

asked_page-page_at :
    (rows : List BookingRecord) (asked : ℕ)
    → 1 ≤ asked
    → asked_page (length rows) rows asked ≡ page_at rows asked
asked_page-page_at rows zero h = ground arith
asked_page-page_at rows (suc zero) h = to_page-rows rows 1
asked_page-page_at rows (suc (suc k)) h =
    elim (Bool-cases (ltb (last_page (length rows)) (suc (suc k)))) [
      | inl past ↦ rw (not_first k, past, past_pages (length rows) k past) refl
      | inr within ↦
          let left = drop_rows ((suc (suc k) - 1) * 10) rows in
          let count = length-drop_rows ((suc (suc k) - 1) * 10) rows in
          let some_left =
            subst (λ n. 0 < n) (sym count)
              (positive (length rows) k (has_rows (length rows) k within)) in
          rw (not_first k, within, in_pages (length rows) k within)
            (shown left (suc (suc k)) some_left
              ∙ to_page-rows left (suc (suc k))
              ∙ ap (page (map preview_item (take_rows 10 left)) (suc (suc k)))
                  (ap (ltb 10) count ∙ more_than (length rows) k))
    ]

is_requested :
    (number : ℕ) → 1 ≤ number → number ≤ max_safe_integer → requested_page number ≡ number
is_requested number low high = ground arith

-- A client with a profile of their own client who asks for the page `number`, at least 1 and a safe
-- integer, while no booking changes, is answered the rows of that page of their bookings that are
-- past DRAFT, in the database's order, and whether a later row is left; past the last page they are
-- sent back. The database's order keeps the number of rows.
pub get_client_booking_list_page-page_at :
    (by_newest : List BookingRecord → List BookingRecord) (crm : CrmStore) (s : BookingStore)
    (actor : AuthenticatedUser) (client_id number : ℕ)
    → ((bookings : List BookingRecord) → length (by_newest bookings) ≡ length bookings)
    → role_eq actor.role Role.client ≡ true
    → can_access_client actor client_id crm ≡ true
    → 1 ≤ number
    → number ≤ max_safe_integer
    → get_client_booking_list_page by_newest crm s s actor client_id number
      ≡ ok (page_at (by_newest (visible_bookings client_id s.bookings)) number)
unfolding get_client_booking_list_page client_booking_list_page count_client_bookings
    find_client_booking_list_page
get_client_booking_list_page-page_at by_newest crm s actor client_id number ordered role own low
      high =
    rw
      (
        role,
        own,
        is_requested number low high,
        select-visible client_id s.bookings,
        sym (ordered (visible_bookings client_id s.bookings)),
      )
      (ap ok (asked_page-page_at (by_newest (visible_bookings client_id s.bookings)) number low))
