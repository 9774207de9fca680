-- ===== src/Bookings/Service/Reading.antt =====
-- `getBookingById` and `listBookings`.
use heritage_philippines_v.Prelude.{ℕ, ◌-◌, ◌*◌, List}
use heritage_philippines_v.Transaction.{Schedule, gets, read_now}
use heritage_philippines_v.Payments.Model.{AuthenticatedUser}
use heritage_philippines_v.Bookings.Model.{BookingRecord, BookingStore, BookingRuntime}
use heritage_philippines_v.Bookings.Repository.{list_bookings_for_actor}
use heritage_philippines_v.Bookings.Service.Actors.{
  BookingAction, as_booking_actor, find_booking_or_refuse,
}

unfoldable pub get_booking_by_id :
    Schedule BookingStore → AuthenticatedUser → ℕ → BookingAction BookingRecord
unfolding as_booking_actor find_booking_or_refuse
get_booking_by_id schedule actor id =
    as_booking_actor actor (λ a. read_now schedule (find_booking_or_refuse a id))

pub record ListBookingsResult : Type 0 where
  pub items : List BookingRecord
  pub page : ℕ
  pub page_size : ℕ
  pub total : ℕ

abbrev pub bookings_page : ℕ → ℕ → List BookingRecord × ℕ → ListBookingsResult
bookings_page page page_size found = record {
  items = found.0;
  page = page;
  page_size = page_size;
  total = found.1;
}

-- `page` and `page_size` are at least 1: listBookingsQuerySchema.
unfoldable pub list_bookings :
    BookingRuntime
    → Schedule BookingStore
    → AuthenticatedUser
    → ℕ
    → ℕ
    → BookingAction ListBookingsResult
unfolding as_booking_actor
list_bookings w schedule actor page page_size = as_booking_actor actor (λ a. read_now schedule (
    gets (λ s.
      bookings_page page page_size
        (list_bookings_for_actor w.by_newest a ((page - 1) * page_size) page_size s))))
