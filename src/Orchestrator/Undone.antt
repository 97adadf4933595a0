-- ===== src/Orchestrator/Undone.antt =====
-- A declined confirmation undoes its hold: the seats are as they were.
use billing_app_microservice.Prelude.{
  ℕ, String, false, some, List, [], ◌∷◌, ◌++◌, ◌≡◌, ap, sym, ◌∙◌, arith, All, first, ◌==◌, eq_iff,
}
use billing_app_microservice.Prelude.Int.{ℤ}
use billing_app_microservice.Effect.{ok}
use billing_app_microservice.Platform.Redis.{Redis}
use billing_app_microservice.Platform.Table.{write}
use billing_app_microservice.Booking.Model.{Booking, BookingTable, BookingStatus, failed, same_id}
use billing_app_microservice.Booking.Repository.{set_status}
use billing_app_microservice.Booking.Service.{Env}
use billing_app_microservice.Booking.SeatMap.{seat_map, takes}
use billing_app_microservice.Booking.SeatMap.Rows.{any-append}
use billing_app_microservice.Booking.SeatMap.Refine.{release_booking-write}
use billing_app_microservice.Payment.Model.{Payment, PaymentTable, is_succeeded}
use billing_app_microservice.Orchestrator.Clients.{payment_failed}
use billing_app_microservice.Orchestrator.Paid.{paid_key}
use billing_app_microservice.Orchestrator.Calls.{
  hold-done, charge_call-done, release-done, publish-done,
}
use billing_app_microservice.Orchestrator.Success.{lost_event}
use billing_app_microservice.Orchestrator.Declined.{refusal-IsDecline}
use billing_app_microservice.Orchestrator.Service.{
  ConfirmBookingInput, ConfirmBookingResult, hold_request, charge_request, confirm_booking,
}
use billing_app_microservice.Orchestrator.Wired.{Axios, World, wired}

-- A write to the row that was inserted last, with an id of its own, leaves the others alone.
write-fresh :
    (b : Booking) (status : BookingStatus) (xs : List Booking)
    → All (λ x. same_id b x ≡ false) xs
    → write (λ z. z.id) b.id (set_status status) (xs ++ b ∷ []) ≡ xs ++ set_status status b ∷ []
write-fresh b status [] h = ground (arith, eq_iff b.id b.id)
write-fresh b status (x ∷ xs) (other, h) =
    ground (arith, write-fresh b status xs h, eq_iff x.id b.id, eq_iff b.id x.id)

failed-seat_map :
    (xs : List Booking) (b : Booking) (at : ℕ) (x y : String) (k : ℤ)
    → seat_map at (xs ++ set_status failed b ∷ []) x y k ≡ seat_map at xs x y k
failed-seat_map xs b at x y k = ground (arith, any-append (takes at x y k) xs (set_status failed b))

module _ (t : BookingTable) (r : Redis) (p : PaymentTable) where
  -- What a declined confirmation leaves: the table of bookings has gained one row, which is FAILED,
  -- no seat is taken or free that was not so before, now or at any other time, and the first payment
  -- under the booking's key did not succeed.
  pub record IsUndone (before after : World t r p) : Type 0 where
    pub hold : Booking
    pub rows : t.rows after.bookings ≡ t.rows before.bookings ++ set_status failed hold ∷ []
    pub seats :
        (at : ℕ) (x y : String) (k : ℤ)
        → seat_map at (t.rows after.bookings) x y k ≡ seat_map at (t.rows before.bookings) x y k
    pub payment : Payment
    pub stored :
        first (λ z. z.idempotency_key == paid_key hold.id) (p.rows after.payments) ≡ some payment
    pub refused : is_succeeded payment.status ≡ false

  module _ (axios : Axios) (env : Env) (rate : ℕ) (topic : String)
      (input : ConfirmBookingInput) where
    -- A confirmation over the real services that returns without success has undone its hold: the
    -- bookings table has gained one row, which is FAILED, every seat is taken or free as it was
    -- before, at any time, and the first payment under the booking's key did not succeed.
    pub confirm_booking-IsUndone :
        (before after : World t r p) {x : ConfirmBookingResult}
        → confirm_booking (wired t r p axios env rate) topic input before ≡ (ok x, after)
        → x.success ≡ false
        → IsUndone before after
    confirm_booking-IsUndone before after e bad =
        let c = wired t r p axios env rate in
        let d = refusal-IsDecline c topic input before after e bad in
        let (new, _) = hold-done t r p axios env (hold_request input) before d.hold_call in
        let (y, there, status, same) =
          charge_call-done t r p axios env rate (charge_request input d.hold.id) d.held
            d.charge_call in
        let (freed, kept) =
          release-done t r p axios env d.hold.id payment_failed d.asked d.release_call in
        let (was, found, answer, stored) =
          release_booking-write t d.hold.id (some "PAYMENT_FAILED") d.asked.bookings freed in
        let (rows, payments) =
          publish-done t r p axios env rate topic (lost_event c topic input d.hold.id d.charged)
            d.released d.publish_call in
        let end : t.rows after.bookings ≡ t.rows before.bookings ++ set_status failed d.hold ∷ [] =
          rw (rows, stored, same, new.stored)
            (write-fresh d.hold failed (t.rows before.bookings) new.fresh) in
        record {
          hold = d.hold;
          rows = end;
          seats = λ at s z k. rw end (failed-seat_map (t.rows before.bookings) d.hold at s z k);
          payment = y;
          stored = rw (payments, kept) there;
          refused = ap is_succeeded (sym status) ∙ d.refused;
        }
