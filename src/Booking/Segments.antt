-- ===== src/Booking/Segments.antt =====
-- booking-service/src/domain/segmentAvailability.ts
use billing_app_microservice.Prelude.{
  String, Bool, true, false, not, ◌&&◌, ◌||◌, List, [], ◌∷◌, ◌==◌, if◌then◌else◌,
}
use billing_app_microservice.Prelude.Js.{Number, num_lt, to_upper_case}

pub record Segment : Type 0 where
  pub from_seq : Number
  pub to_seq : Number
  pub status : String

-- `BLOCKING_STATUSES.has(status.toUpperCase())`
unfoldable pub is_blocking : String → Bool
is_blocking status = let s = to_upper_case status in s == "CONFIRMED" || s == "PENDING"

abbrev pub overlaps : Segment → Number → Number → Bool
overlaps b from to = num_lt b.from_seq to && num_lt from b.to_seq

-- Both branches that go on make the same call.
unfoldable pub has_segment_conflict : List Segment → Number → Number → Bool
has_segment_conflict [] from to = false
has_segment_conflict (b ∷ bs) from to =
    let rest = has_segment_conflict bs from to in
    if not (is_blocking b.status) then rest else if overlaps b from to then true else rest
