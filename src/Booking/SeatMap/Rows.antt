-- ===== src/Booking/SeatMap/Rows.antt =====
-- What a row added, and a row changed, is to the seat map.
use billing_app_microservice.Prelude.{
  ℕ, String, Bool, true, false, ◌&&◌, ◌||◌, not, some, List, [], ◌∷◌, ◌++◌, ◌≡◌, refl, inl, inr,
  arith, any, All, ◌==◌, Bool-cases, eq_iff,
}
use billing_app_microservice.Prelude.Int.{ℤ}
use billing_app_microservice.Prelude.Js.{Number, nan, num, num_lt}
use billing_app_microservice.Platform.Table.{write, find}
use billing_app_microservice.Booking.Model.{Booking, BookingStatus, confirmed}
use billing_app_microservice.Booking.Repository.{is_active, set_status}
use billing_app_microservice.Booking.Overlap.{Leg}
use billing_app_microservice.Booking.Exclusive.{meets, IsExclusive, Compatible, write_absent}
use billing_app_microservice.Booking.Availability.{occupies, IsFree}
use billing_app_microservice.Booking.SeatMap.{on_leg, takes, seat_map, covers, IsOpen}

pub on_leg-Leg : (k : ℤ) (a b : Number) → Leg k a b → on_leg k a b ≡ true
on_leg-Leg k (num a) (num b) (h, h') = ground arith
on_leg-Leg k nan b h = elim h [ ]
on_leg-Leg k (num a) nan h = elim h [ ]

-- Two journeys with a common leg overlap.
common_leg :
    (k : ℤ) (a b c d : Number)
    → on_leg k a b ≡ true
    → on_leg k c d ≡ true
    → (num_lt a d && num_lt c b) ≡ true
common_leg k (num a) (num b) (num c) (num d) h l = ground arith
common_leg k nan b c d h l = absurd (ground arith)
common_leg k (num a) nan c d h l = absurd (ground arith)
common_leg k (num a) (num b) nan d h l = absurd (ground arith)
common_leg k (num a) (num b) (num c) nan h l = absurd (ground arith)

pub any-append :
    {A : Type 0} (p : A → Bool) (xs : List A) (a : A) → any p (xs ++ a ∷ []) ≡ (any p xs || p a)
any-append p [] a = ground arith
any-append p (x ∷ xs) a = ground (arith, any-append p xs a)

module _ (now : ℕ) (trip seat : String) (from to : Number) where
  takes-false :
      (k : ℤ) (x : Booking)
      → Leg k from to
      → occupies now trip seat from to x ≡ false
      → takes now trip seat k x ≡ false
  takes-false k x leg free =
      ground (arith, common_leg k x.from_stop_seq x.to_stop_seq from to, on_leg-Leg k from to leg)

  -- What no row occupies is open on the map.
  pub IsFree-IsOpen :
      (xs : List Booking)
      → IsFree now trip seat from to xs
      → IsOpen trip seat from to (seat_map now xs)
  IsFree-IsOpen [] h k leg = refl
  IsFree-IsOpen (x ∷ xs) (c, h) k leg = rw (takes-false k x leg c, IsFree-IsOpen xs h k leg)

module _ (now : ℕ) (trip seat : String) (k : ℤ) where
  -- Two rows that take the same leg clash.
  takes-apart :
      (x y : Booking)
      → Compatible now x y
      → takes now trip seat k x ≡ true
      → takes now trip seat k y ≡ false
  unfolding meets
  takes-apart x y c h =
      let apart = c.apart in
      ground (
        arith,
        common_leg k x.from_stop_seq x.to_stop_seq y.from_stop_seq y.to_stop_seq,
        eq_iff x.trip_id trip,
        eq_iff x.seat_id seat,
        eq_iff y.trip_id trip,
        eq_iff y.seat_id seat,
        eq_iff x.trip_id y.trip_id,
        eq_iff x.seat_id y.seat_id,
      )

  none_takes :
      (x : Booking) (xs : List Booking)
      → All (Compatible now x) xs
      → takes now trip seat k x ≡ true
      → any (takes now trip seat k) xs ≡ false
  none_takes x [] h e = refl
  none_takes x (y ∷ ys) (c, h) e = rw (takes-apart x y c e, none_takes x ys h e)

  find-Compatible :
      (x y : Booking) (id : String) (xs : List Booking)
      → find (λ b. b.id) id xs ≡ some y
      → All (Compatible now x) xs
      → Compatible now x y
  find-Compatible x y id [] e h = absurd (ground arith)
  find-Compatible x y id (z ∷ zs) e (c, h) = elim (Bool-cases (z.id == id)) [
    | inl same ↦ let head : z ≡ y = ground arith in rw (← head) c
    | inr other ↦ find-Compatible x y id zs (ground arith) h
  ]

  -- The row found loses its seat under a status that holds none.
  pub any-write_idle :
      (status : BookingStatus)
      → ((x : Booking) → is_active now (set_status status x) ≡ false)
      → (id : String) (w : Booking) (xs : List Booking) → find (λ b. b.id) id xs ≡ some w
      → IsExclusive now xs
      → any (takes now trip seat k) (write (λ b. b.id) id (set_status status) xs)
        ≡ (any (takes now trip seat k) xs && not (takes now trip seat k w))
  any-write_idle status idle id w [] e ex = absurd (ground arith)
  any-write_idle status idle id w (y ∷ ys) e (c, ex) = elim (Bool-cases (y.id == id)) [
    | inl same ↦
        let head : y ≡ w = ground arith in
        let tail = write_absent now status id y ys ((eq_iff y.id id).0 same) c in
        let alone = none_takes y ys c in rw (same, tail, ← head) (ground (arith, idle y))
    | inr other ↦
        let there : find (λ b. b.id) id ys ≡ some w = ground arith in
        let ih = any-write_idle status idle id w ys there ex in
        let apart = takes-apart y w (find-Compatible y w id ys there c) in
        rw (other, ih) (ground arith)
  ]

-- The row found has its seat for good when it is confirmed.
pub any-write_sold :
    (now at : ℕ) (trip seat : String) (k : ℤ) (id : String) (w : Booking) (xs : List Booking)
    → find (λ b. b.id) id xs ≡ some w
    → IsExclusive now xs
    → any (takes at trip seat k) (write (λ b. b.id) id (set_status confirmed) xs) ≡ (
        any (takes at trip seat k) xs
        || covers w.trip_id w.seat_id w.from_stop_seq w.to_stop_seq trip seat k)
any-write_sold now at trip seat k id w [] e ex = absurd (ground arith)
any-write_sold now at trip seat k id w (y ∷ ys) e (c, ex) = elim (Bool-cases (y.id == id)) [
  | inl same ↦
      let head : y ≡ w = ground arith in
      let tail = write_absent now confirmed id y ys ((eq_iff y.id id).0 same) c in
      rw (same, tail, ← head) (ground arith)
  | inr other ↦
      let ih = any-write_sold now at trip seat k id w ys (ground arith) ex in
      rw (other, ih) (ground arith)
]
