-- ===== src/Booking/Availability.antt =====
-- `checkAvailability` against the rows of the table.
use billing_app_microservice.Prelude.{
  ℕ, String, Bool, true, false, not, ◌&&◌, ◌||◌, List, [], ◌∷◌, ◌≡◌, ◌↔◌, refl, arith, map, select,
  All, Bool-cases, if◌then◌else◌, inl, inr,
}
use billing_app_microservice.Prelude.Js.{Number}
use billing_app_microservice.Effect.{ok, Result-cases}
use billing_app_microservice.Booking.Model.{Booking, BookingTable, status_name}
use billing_app_microservice.Booking.Segments.{is_blocking, overlaps, has_segment_conflict}
use billing_app_microservice.Booking.Overlap.{IsJourney, is_blocking-status_name}
use billing_app_microservice.Booking.Repository.{is_active, is_active_for}
use billing_app_microservice.Booking.Service.{segment_of, check_availability}

-- The row holds the seat at `now` for a journey that overlaps the one asked for.
abbrev pub occupies : ℕ → String → String → Number → Number → Booking → Bool
occupies now trip seat from to x = is_active_for now trip seat x && overlaps (segment_of x) from to

abbrev pub IsFree : ℕ → String → String → Number → Number → List Booking → Type 0
IsFree now trip seat from to = All (λ x. occupies now trip seat from to x ≡ false)

active-blocking :
    (now : ℕ) (x : Booking) → is_active now x ≡ true → is_blocking (status_name x.status) ≡ true
active-blocking now x h = rw (is_blocking-status_name x.status) (ground arith)

not_iff : {b : Bool} (c : Bool) {P : Type 0} → b ≡ not c → (c ≡ false) ↔ P → (b ≡ true) ↔ P
not_iff c e (to, from) = (λ h. to (ground arith), λ p. rw (e, from p))

if-or : (b c : Bool) → (if b then true else c) ≡ (b || c)
if-or true c = refl
if-or false c = refl

module _ (now : ℕ) (trip seat : String) (from to : Number) where
  conflict : List Booking → Bool
  conflict xs =
      has_segment_conflict (map segment_of (select (is_active_for now trip seat) xs)) from to

  -- The answer for one more row.
  conflict-cons :
      (x : Booking) (xs : List Booking)
      → conflict (x ∷ xs) ≡ (occupies now trip seat from to x || conflict xs)
  unfolding conflict has_segment_conflict
  conflict-cons x xs = elim (Bool-cases (is_active_for now trip seat x)) [
    | inl active ↦
        rw (active, active-blocking now x (ground arith))
          (if-or (overlaps (segment_of x) from to) _)
    | inr other ↦ rw other
  ]

  conflict_iff : (xs : List Booking) → (conflict xs ≡ false) ↔ IsFree now trip seat from to xs
  conflict_iff [] = (λ h. tt, λ h. unfold conflict has_segment_conflict in refl)
  conflict_iff (x ∷ xs) = let ih = conflict_iff xs in rw (conflict-cons x xs) (ground arith)

module _ (t : BookingTable) where
  -- An answer of `checkAvailability` changes nothing, is given for a journey that runs forwards, and
  -- is true exactly when no row holds the seat for an overlapping journey.
  pub check_availability-ok :
      (now : ℕ) (trip seat : String) (from to : Number) (s : t.Store) {b : Bool} {s' : t.Store}
      → check_availability t now trip seat from to s ≡ (ok b, s')
      → (s' ≡ s) × IsJourney from to × ((b ≡ true) ↔ IsFree now trip seat from to (t.rows s))
  unfolding check_availability conflict
  check_availability-ok now trip seat from to s {b} e =
      elim (Result-cases (t.find_many (is_active_for now trip seat) s)) [
        | inl (xs, found) ↦
            let listed = t.find_many_ok (is_active_for now trip seat) s found in
            let answer : b ≡ not (has_segment_conflict (map segment_of xs) from to) =
              ground arith in
            let spec = conflict_iff now trip seat from to (t.rows s) in
            (ground arith, ground arith, not_iff _ (rw listed at answer) spec)
        | inr (x, failed) ↦ absurd (ground arith)
      ]
