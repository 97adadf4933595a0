-- ===== src/Booking/Forwards.antt =====
-- Every row of the table runs from a stop to a later one.
use billing_app_microservice.Prelude.{ℕ, String, Option, List, All}
use billing_app_microservice.Prelude.Js.{Number}
use billing_app_microservice.Platform.Redis.{Redis}
use billing_app_microservice.Booking.Model.{Booking, BookingTable}
use billing_app_microservice.Booking.Overlap.{IsJourney}
use billing_app_microservice.Booking.Kept.{
  create_hold-All, confirm_booking-All, release_booking-All,
}
use billing_app_microservice.Booking.Service.{
  Env, Draws, State, create_hold, confirm_booking, release_booking,
}

abbrev IsOnward : Booking → Type 0
IsOnward x = IsJourney x.from_stop_seq x.to_stop_seq

abbrev pub IsForwards : List Booking → Type 0
IsForwards = All IsOnward

module _ (t : BookingTable) where
  pub confirm_booking-IsForwards :
      (now : ℕ) (id : String) (s : t.Store)
      → IsForwards (t.rows s)
      → IsForwards (t.rows (confirm_booking t now id s).1)
  confirm_booking-IsForwards now id s h =
      confirm_booking-All IsOnward t now id s (λ x e k. k) (λ x e k. k) h

  pub release_booking-IsForwards :
      (id : String) (reason : Option String) (s : t.Store)
      → IsForwards (t.rows s)
      → IsForwards (t.rows (release_booking t id reason s).1)
  release_booking-IsForwards id reason s h =
      release_booking-All IsOnward t id reason s (λ x e k. k) (λ x e k. k) h

module _ (t : BookingTable) (r : Redis) where
  pub create_hold-IsForwards :
      (env : Env) (draws : Draws) (trip seat user : String) (from to : Number) (s : State t r)
      → IsForwards (t.rows s.0)
      → IsForwards (t.rows (create_hold t r env draws trip seat user from to s).1.0)
  create_hold-IsForwards env draws trip seat user from to s h =
      create_hold-All IsOnward t env trip seat user from to r draws s (λ held id run. run) h
