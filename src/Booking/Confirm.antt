-- ===== src/Booking/Confirm.antt =====
-- What a confirmation that succeeds has done.
use billing_app_microservice.Prelude.{
  ℕ, String, false, true, none, some, List, ◌≡◌, sym, arith, inl, inr, ◌==◌,
}
use billing_app_microservice.Effect.{ok, Result-cases}
use billing_app_microservice.Platform.Table.{write, find}
use billing_app_microservice.Booking.Model.{Booking, BookingTable, confirmed, is_pending}
use billing_app_microservice.Booking.Repository.{set_status, update_status}
use billing_app_microservice.Booking.Service.{confirm_booking, has_expired}

pub record IsConfirmation (t : BookingTable) (now : ℕ) (id : String) (before after : List Booking)
    (b : Booking) : Type 0 where
  pub was : Booking
  pub found : find (λ x. x.id) id before ≡ some was
  pub waiting : is_pending was.status ≡ true
  pub in_time : has_expired t now was.hold_expires_at ≡ false
  pub answer : b ≡ set_status confirmed was
  pub stored : after ≡ write (λ x. x.id) id (set_status confirmed) before

-- A confirmation that succeeds is of a pending hold whose end is not past; it sets that row's status
-- to CONFIRMED and changes no other row and no other column.
pub confirm_booking-ok :
    (t : BookingTable) (now : ℕ) (id : String) (s : t.Store) {b : Booking} {s' : t.Store}
    → confirm_booking t now id s ≡ (ok b, s')
    → IsConfirmation t now id (t.rows s) (t.rows s') b
unfolding confirm_booking
confirm_booking-ok t now id s {b} {s'} e = elim (Result-cases (t.find_first (λ x. x.id == id) s)) [
  | inl (none, found) ↦ absurd (ground arith)
  | inl (some x, found) ↦
      let there : find (λ y. y.id) id (t.rows s) ≡ some x = sym (t.find_first_ok _ s found) in
      let made : update_status t id confirmed s ≡ (ok b, s') = ground arith in
      let (y, here, answer, stored) = t.update_ok id (set_status confirmed) s made in
      let same : y ≡ x = ground arith in
      record {
        was = x;
        found = there;
        waiting = ground arith;
        in_time = ground arith;
        answer = rw same at answer;
        stored = stored;
      }
  | inr (y, thrown) ↦ absurd (ground arith)
]
