-- ===== src/Booking/Concurrent/Races.antt =====
-- The two orders of steps that the safety theorem leaves out do reach a double booking. The runs are
-- on the tables in memory.
use billing_app_microservice.Prelude.{
  ℕ, ◌≤◌, ◌<◌, true, false, some, List, [], ◌∷◌, ◌≡◌, refl, inr, arith, eq_refl,
}
use billing_app_microservice.Prelude.Js.{number, is_empty, show_ℕ}
use billing_app_microservice.Effect.{ok}
use billing_app_microservice.Platform.Redis.{Redis}
use billing_app_microservice.Platform.Memory.{memory, locks}
use billing_app_microservice.Booking.Model.{Booking, BookingTable, confirmed, cancelled, same_id}
use billing_app_microservice.Booking.Lock.{acquire_lock}
use billing_app_microservice.Booking.Segments.{has_segment_conflict}
use billing_app_microservice.Booking.Repository.{booking_of}
use billing_app_microservice.Booking.Service.{Env, new_hold, lock_key, check_availability}
use billing_app_microservice.Booking.Exclusive.{IsExclusive, meets}
use billing_app_microservice.Booking.Concurrent.{
  HoldRequest, idle, searching, inserting, unlocking, confirming, releasing, System, goes, lock,
  search_free, insert, checking, confirm_read, confirm_live, confirm_write, release_read,
  release_write, lapse, Reach, here, next,
}

module _ (t : BookingTable) (r : Redis) (env : Env) where
  -- Steps between which no lock lapses.
  abbrev pub HasNoLapse : {s u : System t r env} → Reach t r env s u → Type 0
  HasNoLapse here = Unit
  HasNoLapse (next re (lapse l gone e)) = ⊥
  HasNoLapse (next re st) = HasNoLapse re

  -- Steps of `createHold` only, with the expiry of locks.
  abbrev pub HasHoldsOnly : {s u : System t r env} → Reach t r env s u → Type 0
  HasHoldsOnly here = Unit
  HasHoldsOnly (next re (lock i q v a b c d e)) = HasHoldsOnly re
  HasHoldsOnly (next re (search_free i q v n a b c d)) = HasHoldsOnly re
  HasHoldsOnly (next re (insert i q v n a b c d)) = HasHoldsOnly re
  HasHoldsOnly (next re (lapse l gone e)) = HasHoldsOnly re
  HasHoldsOnly (next re st) = ⊥

abbrev pub table : BookingTable
table = memory (λ b. b.id) same_id

-- A request that `createHold` accepts: it names a trip, a seat and a user, and runs forwards.
pub record IsSound (q : HoldRequest) (a b : ℕ) : Type 0 where
  pub trip : is_empty q.trip ≡ false
  pub seat : is_empty q.seat ≡ false
  pub user : is_empty q.user ≡ false
  pub from : q.from ≡ number a
  pub to : q.to ≡ number b
  pub forwards : a < b

module _ (env : Env) (now : ℕ) (q : HoldRequest) where
  abbrev pub first_hold : Booking
  first_hold = booking_of (new_hold env now q.trip q.seat q.user q.from q.to) "0"

  abbrev pub second_hold : Booking
  second_hold = booking_of (new_hold env now q.trip q.seat q.user q.from q.to) "1"

  abbrev pub quiet : List Booking → System table locks env
  quiet rows = record { now = now; rows = rows; locks = []; pc = λ i. idle }

  self : now ≤ now
  self = omega arith

  search_past :
      (a b : ℕ)
      → IsSound q a b
      → check_availability table now q.trip q.seat q.from q.to
          (record first_hold { status = cancelled } ∷ [])
        ≡ (ok true, record first_hold { status = cancelled } ∷ [])
  unfolding check_availability has_segment_conflict
  search_past a b h = rw (h.from, h.to) (ground arith)

  clash :
      (a b : ℕ)
      → IsSound q a b
      → ¬ IsExclusive now (record first_hold { status = confirmed } ∷ second_hold ∷ [])
  unfolding meets
  clash a b h ((c, _), _) =
      let apart = c.apart in absurd (ground (arith, h.from, h.to, eq_refl q.trip, eq_refl q.seat))

  search_empty :
      (a b : ℕ)
      → IsSound q a b
      → check_availability table now q.trip q.seat q.from q.to [] ≡ (ok true, [])
  unfolding check_availability has_segment_conflict
  search_empty a b h = rw (h.from, h.to) (ground arith)

  clash_pending : (a b : ℕ) → IsSound q a b → ¬ IsExclusive now (first_hold ∷ second_hold ∷ [])
  unfolding meets
  clash_pending a b h ((c, _), _) =
      let apart = c.apart in absurd (ground (arith, h.from, h.to, eq_refl q.trip, eq_refl q.seat))

  -- From a table with one pending booking, and no request under way, steps without the lapse of a lock
  -- lead to a double booking: that booking is CONFIRMED, and another request has a pending hold of the
  -- same seat and stops, which it could make because the booking was cancelled after `confirmBooking`
  -- had read it.
  pub cancelled_then_confirmed :
      (a b : ℕ)
      → IsSound q a b
      → (u : System table locks env) × (re : Reach table locks env (quiet (first_hold ∷ [])) u)
        × HasNoLapse table locks env re
        × (u.rows ≡ record first_hold { status = confirmed } ∷ second_hold ∷ [])
        × (¬ IsExclusive u.now u.rows)
  unfolding acquire_lock show_ℕ
  cancelled_then_confirmed a b h =
      let s₀ = quiet (first_hold ∷ []) in
      let gone : List Booking = record first_hold { status = cancelled } ∷ [] in
      let read : System table locks env = goes table locks env s₀ 0 (checking "0" first_hold) in
      let s₁ : System table locks env = goes table locks env read 0 (confirming "0") in
      let s₂ : System table locks env =
        goes table locks env s₁ 1 (releasing "0" (some "USER_CANCELLED")) in
      let s₃ : System table locks env = goes table locks env (record s₂ { rows = gone }) 1 idle in
      let s₄ : System table locks env =
        goes table locks env (record s₃ { locks = (lock_key q.trip q.seat, "V") ∷ [] }) 2
          (searching q "V") in
      let s₅ : System table locks env = goes table locks env s₄ 2 (inserting q "V") in
      let s₆ : System table locks env =
        goes table locks env
          (record s₅ { rows = record first_hold { status = cancelled } ∷ second_hold ∷ [] }) 2
          (unlocking q "V") in
      let s₇ : System table locks env =
        goes table locks env
          (record s₆ { rows = record first_hold { status = confirmed } ∷ second_hold ∷ [] }) 0
          idle in
      let r₁ : Reach table locks env s₀ s₁ =
        next (next here (confirm_read 0 "0" first_hold refl refl refl refl))
          (confirm_live 0 "0" first_hold refl (ground arith) refl) in
      let r₂ : Reach table locks env s₀ s₂ =
        next r₁ (release_read 1 "0" (some "USER_CANCELLED") first_hold refl refl (inr refl) refl) in
      let r₃ : Reach table locks env s₀ s₃ =
        next r₂ (release_write 1 "0" (some "USER_CANCELLED") refl refl refl) in
      let r₄ : Reach table locks env s₀ s₄ = next r₃ (lock 2 q "V" refl h.user refl refl refl) in
      let r₅ : Reach table locks env s₀ s₅ =
        next r₄ (search_free 2 q "V" now refl self (search_past a b h) refl) in
      let r₆ : Reach table locks env s₀ s₆ = next r₅ (insert 2 q "V" now refl self refl refl) in
      let r₇ : Reach table locks env s₀ s₇ = next r₆ (confirm_write 0 "0" refl refl refl) in
      (s₇, r₇, tt, refl, clash a b h)

  -- From an empty table, and no request under way, steps of `createHold` and the expiry of locks
  -- alone lead to a double booking: two pending holds of the same seat and stops, the second of which
  -- could be made because the lock of the first had lapsed between its search and its insertion.
  pub lapsed_then_held :
      (a b : ℕ)
      → IsSound q a b
      → (u : System table locks env) × (re : Reach table locks env (quiet []) u) × HasHoldsOnly
          table locks env re
        × (u.rows ≡ first_hold ∷ second_hold ∷ [])
        × (¬ IsExclusive u.now u.rows)
  unfolding acquire_lock show_ℕ
  lapsed_then_held a b h =
      let s₀ = quiet [] in
      let s₁ : System table locks env =
        goes table locks env (record s₀ { locks = (lock_key q.trip q.seat, "V") ∷ [] }) 0
          (searching q "V") in
      let s₂ : System table locks env = goes table locks env s₁ 0 (inserting q "V") in
      let s₃ : System table locks env = record s₂ { locks = [] } in
      let s₄ : System table locks env =
        goes table locks env (record s₃ { locks = (lock_key q.trip q.seat, "W") ∷ [] }) 1
          (searching q "W") in
      let s₅ : System table locks env = goes table locks env s₄ 1 (inserting q "W") in
      let s₆ : System table locks env =
        goes table locks env (record s₅ { rows = first_hold ∷ [] }) 0 (unlocking q "V") in
      let s₇ : System table locks env =
        goes table locks env (record s₆ { rows = first_hold ∷ second_hold ∷ [] }) 1
          (unlocking q "W") in
      let r₁ : Reach table locks env s₀ s₁ = next here (lock 0 q "V" refl h.user refl refl refl) in
      let r₂ : Reach table locks env s₀ s₂ =
        next r₁ (search_free 0 q "V" now refl self (search_empty a b h) refl) in
      let r₃ : Reach table locks env s₀ s₃ = next r₂ (lapse [] (λ k. inr refl) refl) in
      let r₄ : Reach table locks env s₀ s₄ = next r₃ (lock 1 q "W" refl h.user refl refl refl) in
      let r₅ : Reach table locks env s₀ s₅ =
        next r₄ (search_free 1 q "W" now refl self (search_empty a b h) refl) in
      let r₆ : Reach table locks env s₀ s₆ = next r₅ (insert 0 q "V" now refl self refl refl) in
      let r₇ : Reach table locks env s₀ s₇ = next r₆ (insert 1 q "W" now refl self refl refl) in
      (s₇, r₇, tt, refl, clash_pending a b h)
