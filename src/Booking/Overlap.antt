-- ===== src/Booking/Overlap.antt =====
-- What a segment conflict is: two journeys on one seat share a leg between neighbouring stops.
use mathlib.Core.Bool.{and-eq-true_iff}
use billing_app_microservice.Prelude.{
  true, ◌||◌, List, [], ◌∷◌, ◌≡◌, refl, ◌↔◌, inl, inr, arith, Any, All, Bool-cases,
}
use billing_app_microservice.Prelude.Int.{ℤ, ◌≤ℤ◌, ◌<ℤ◌, leb_ℤ}
use billing_app_microservice.Prelude.Js.{Number, nan, num, num_lt, to_upper_case}
use billing_app_microservice.Booking.Model.{
  BookingStatus, pending, confirmed, failed, cancelled, expired, status_name, is_pending,
  is_confirmed,
}
use billing_app_microservice.Booking.Segments.{Segment, is_blocking, overlaps, has_segment_conflict}

-- The leg from stop `k` to stop `k + 1` is part of the journey.
abbrev pub Leg : ℤ → Number → Number → Type 0
Leg k (num a) (num b) = (a ≤ℤ k) × (k <ℤ b)
Leg k _ _ = ⊥

-- A journey from a stop to a later one.
abbrev pub IsJourney : Number → Number → Type 0
IsJourney from to = num_lt from to ≡ true

abbrev pub SharesLeg : Number → Number → Number → Number → Type 0
SharesLeg a b c d = (k : ℤ) × Leg k a b × Leg k c d

overlap-SharesLeg :
    (a b c d : Number)
    → IsJourney a b
    → IsJourney c d
    → num_lt a d ≡ true
    → num_lt c b ≡ true
    → SharesLeg a b c d
overlap-SharesLeg (num a) (num b) (num c) (num d) h k e f = elim (Bool-cases (leb_ℤ a c)) [
  | inl before ↦ (c, (ground arith, ground arith), (ground arith, ground arith))
  | inr after ↦ (a, (ground arith, ground arith), (ground arith, ground arith))
]
overlap-SharesLeg _ _ _ _ h k e f = cc

SharesLeg-overlap :
    (a b c d : Number) → SharesLeg a b c d → (num_lt a d ≡ true) × (num_lt c b ≡ true)
SharesLeg-overlap (num a) (num b) (num c) (num d) (k, (h, h'), (l, l')) = ground arith
SharesLeg-overlap nan b c d (k, h, l) = elim h [ ]
SharesLeg-overlap (num a) nan c d (k, h, l) = elim h [ ]
SharesLeg-overlap (num a) (num b) nan d (k, h, l) = elim l [ ]
SharesLeg-overlap (num a) (num b) (num c) nan (k, h, l) = elim l [ ]

-- Of the five statuses of a booking, exactly PENDING and CONFIRMED block a seat.
pub is_blocking-status_name :
    (s : BookingStatus) → is_blocking (status_name s) ≡ (is_pending s || is_confirmed s)
unfolding is_blocking to_upper_case
is_blocking-status_name pending = refl
is_blocking-status_name confirmed = refl
is_blocking-status_name failed = refl
is_blocking-status_name cancelled = refl
is_blocking-status_name expired = refl

-- A segment of a booking that blocks the seat and shares a leg with the journey asked for.
abbrev pub Blocks : Number → Number → Segment → Type 0
Blocks from to b = (is_blocking b.status ≡ true) × SharesLeg b.from_seq b.to_seq from to

pub shared :
    (b : Segment) (from to : Number)
    → overlaps b from to ≡ true
    → IsJourney b.from_seq b.to_seq
    → IsJourney from to
    → SharesLeg b.from_seq b.to_seq from to
shared b from to e h k = let (p, q) = (and-eq-true_iff _ _).0 e in overlap-SharesLeg _ _ _ _ h k p q

module _ (from to : Number) (h : IsJourney from to) where
  conflict_sound :
      (bs : List Segment)
      → All (λ b. IsJourney b.from_seq b.to_seq) bs
      → has_segment_conflict bs from to ≡ true
      → Any (Blocks from to) bs
  unfolding has_segment_conflict
  conflict_sound [] all e = cc
  conflict_sound (b ∷ bs) (run, all) e = elim (Bool-cases (is_blocking b.status)) [
    | inl blocks ↦ elim (Bool-cases (overlaps b from to)) [
      | inl over ↦ inl (blocks, shared b from to over run h)
      | inr apart ↦ inr (conflict_sound bs all (ground arith))
    ]
    | inr ignored ↦ inr (conflict_sound bs all (ground arith))
  ]

conflict_complete :
    (from to : Number) (bs : List Segment)
    → Any (Blocks from to) bs
    → has_segment_conflict bs from to ≡ true
unfolding has_segment_conflict
conflict_complete from to [] x = elim x [ ]
conflict_complete from to (b ∷ bs) (inl (blocks, share)) =
    ground (arith, SharesLeg-overlap b.from_seq b.to_seq from to share)
conflict_complete from to (b ∷ bs) (inr later) = ground (arith, conflict_complete from to bs later)

-- `hasSegmentConflict` answers true exactly when some segment of the list with a blocking status
-- shares a leg with the journey asked for; the journey and the listed ones run forwards.
pub has_segment_conflict_iff :
    (bs : List Segment) (from to : Number)
    → IsJourney from to
    → All (λ b. IsJourney b.from_seq b.to_seq) bs
    → (has_segment_conflict bs from to ≡ true) ↔ Any (Blocks from to) bs
has_segment_conflict_iff bs from to h all =
    (conflict_sound from to h bs all, conflict_complete from to bs)
