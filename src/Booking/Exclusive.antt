-- ===== src/Booking/Exclusive.antt =====
-- The invariant of the table of bookings: no two that hold a seat at the same time overlap.
use mathlib.Core.Path.{subst}
use billing_app_microservice.Prelude.{
  ℕ, ◌≤◌, String, Bool, true, false, ◌&&◌, some, List, [], ◌∷◌, ◌++◌, ◌≡◌, ◌≢◌, refl, inl, inr,
  arith, ◌==◌, All, All-map, All-concat, Bool-cases, eq_iff,
}
use billing_app_microservice.Platform.Table.{write, find}
use billing_app_microservice.Booking.Model.{Booking, BookingStatus}
use billing_app_microservice.Booking.Segments.{overlaps}
use billing_app_microservice.Booking.Repository.{is_active, set_status}
use billing_app_microservice.Booking.Service.{segment_of}

-- The two bookings are for the same seat of the same trip, and their journeys overlap.
unfoldable pub meets : Booking → Booking → Bool
meets x y =
    x.trip_id == y.trip_id
    && x.seat_id == y.seat_id
    && overlaps (segment_of x) y.from_stop_seq y.to_stop_seq

-- At `now` both of them hold the seat, too.
abbrev pub clashes : ℕ → Booking → Booking → Bool
clashes now x y = meets x y && is_active now x && is_active now y

pub record Compatible (now : ℕ) (x y : Booking) : Type 0 where
  pub other_id : x.id ≢ y.id
  pub apart : clashes now x y ≡ false

-- Every two bookings of the table have different ids and do not clash at `now`.
abbrev pub IsExclusive : ℕ → List Booking → Type 0
IsExclusive now [] = Unit
IsExclusive now (x ∷ xs) = All (Compatible now x) xs × IsExclusive now xs

-- A hold ends with time and never comes back.
pub is_active_earlier :
    (now later : ℕ) (b : Booking) → now ≤ later → is_active later b ≡ true → is_active now b ≡ true
is_active_earlier now later b h e = ground arith

Compatible-later :
    (now later : ℕ) (x y : Booking) → now ≤ later → Compatible now x y → Compatible later x y
Compatible-later now later x y h c = record {
  other_id = c.other_id;
  apart = ground (arith, c.apart, is_active_earlier now later x h, is_active_earlier now later y h);
}

-- What is exclusive stays so while time passes.
pub IsExclusive-later :
    (now later : ℕ) (xs : List Booking) → now ≤ later → IsExclusive now xs → IsExclusive later xs
IsExclusive-later now later [] h e = tt
IsExclusive-later now later (x ∷ xs) h (c, e) =
    (All-map (λ y. Compatible-later now later x y h) xs c, IsExclusive-later now later xs h e)

and_left :
    (m a a' b : Bool) → (a' ≡ true → a ≡ true) → (m && a && b) ≡ false → (m && a' && b) ≡ false
and_left m a a' b d h = ground arith

and_right :
    (m a b b' : Bool) → (b' ≡ true → b ≡ true) → (m && a && b) ≡ false → (m && a && b') ≡ false
and_right m a b b' d h = ground arith

module _ (now : ℕ) (status : BookingStatus) where
  -- The status is one under which a booking that does not hold its seat stays so.
  abbrev pub IsDormant : Booking → Type 0
  IsDormant x = is_active now (set_status status x) ≡ true → is_active now x ≡ true

  Compatible-left :
      (x y : Booking) → IsDormant x → Compatible now x y → Compatible now (set_status status x) y
  unfolding meets
  Compatible-left x y d c = record {
    other_id = c.other_id;
    apart =
        and_left (meets x y) (is_active now x) (is_active now (set_status status x))
          (is_active now y) d c.apart;
  }

  Compatible-right :
      (x y : Booking) → IsDormant y → Compatible now x y → Compatible now x (set_status status y)
  unfolding meets
  Compatible-right x y d c = record {
    other_id = c.other_id;
    apart =
        and_right (meets x y) (is_active now x) (is_active now y)
          (is_active now (set_status status y)) d c.apart;
  }

  pub write_absent :
      (id : String) (x : Booking) (xs : List Booking)
      → x.id ≡ id
      → All (Compatible now x) xs
      → write (λ b. b.id) id (set_status status) xs ≡ xs
  write_absent id x [] e h = refl
  write_absent id x (y ∷ ys) e (c, h) =
      ground (arith, eq_iff y.id id, c.other_id, write_absent id x ys e h)

  IsDormant-head :
      (x y : Booking) (id : String) (ys : List Booking)
      → find (λ b. b.id) id (y ∷ ys) ≡ some x
      → IsDormant x
      → (y.id == id) ≡ true
      → IsDormant y
  IsDormant-head x y id ys e d same = let head : x ≡ y = ground arith in subst IsDormant head d

  All-write :
      (w x : Booking) (id : String) (xs : List Booking)
      → find (λ b. b.id) id xs ≡ some x
      → IsDormant x
      → IsExclusive now xs
      → All (Compatible now w) xs
      → All (Compatible now w) (write (λ b. b.id) id (set_status status) xs)
  All-write w x id [] e d ex h = tt
  All-write w x id (y ∷ ys) e d (ids, ex) (c, h) = elim (Bool-cases (y.id == id)) [
    | inl same ↦
        rw (same, write_absent id y ys ((eq_iff y.id id).0 same) ids)
          (Compatible-right w y (IsDormant-head x y id ys e d same) c, h)
    | inr other ↦ rw other (c, All-write w x id ys (ground arith) d ex h)
  ]

  -- Such a change of one row keeps the table exclusive.
  pub write-IsExclusive :
      (x : Booking) (id : String) (xs : List Booking)
      → find (λ b. b.id) id xs ≡ some x
      → IsDormant x
      → IsExclusive now xs
      → IsExclusive now (write (λ b. b.id) id (set_status status) xs)
  write-IsExclusive x id [] e d ex = tt
  write-IsExclusive x id (y ∷ ys) e d (c, ex) = elim (Bool-cases (y.id == id)) [
    | inl same ↦
        rw (same, write_absent id y ys ((eq_iff y.id id).0 same) c)
          (All-map (λ z. Compatible-left y z (IsDormant-head x y id ys e d same)) ys c, ex)
    | inr other ↦
        let rest : find (λ b. b.id) id ys ≡ some x = ground arith in
        rw other (All-write y x id ys rest d ex c, write-IsExclusive x id ys rest d ex)
  ]

-- A new row that meets no row holding the seat keeps the table exclusive.
pub append-IsExclusive :
    (now : ℕ) (r : Booking) (xs : List Booking)
    → All (λ x. Compatible now x r) xs
    → IsExclusive now xs
    → IsExclusive now (xs ++ r ∷ [])
append-IsExclusive now r [] h ex = (tt, tt)
append-IsExclusive now r (x ∷ xs) (c, h) (d, ex) =
    (All-concat (Compatible now x) xs d c, append-IsExclusive now r xs h ex)
