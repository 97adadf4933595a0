-- ===== src/Orchestrator/Concurrent/Safety.antt =====
-- No interleaving of sagas, with calls that are lost, late or repeated, sells a seat unpaid.
use billing_app_microservice.Prelude.{
  ℕ, String, List, [], ◌∷◌, ◌≡◌, refl, inl, inr, All, All-map, All-Any, Bool-cases, nat_eq,
}
use billing_app_microservice.Prelude.Js.{trim}
use billing_app_microservice.Effect.{Result, ok, err}
use billing_app_microservice.Platform.Redis.{Redis}
use billing_app_microservice.Booking.Model.{BookingTable}
use billing_app_microservice.Booking.Service.{Env}
use billing_app_microservice.Payment.Model.{Payment, PaymentTable, is_succeeded}
use billing_app_microservice.Orchestrator.Trace.{
  Call, hold, confirm, release, charge, refund, publish,
}
use billing_app_microservice.Orchestrator.Paid.{
  IsPaidFor, IsEntitled, IsAfter, ArePaid, ask-ArePaid, charge-IsPaid,
}
use billing_app_microservice.Orchestrator.Program.{Answer, Program, ask}
use billing_app_microservice.Orchestrator.Wired.{Axios}
use billing_app_microservice.Orchestrator.Concurrent.Careful.{
  paid_by, paid_by_err, IsCareful, saga-IsCareful, cancellation-IsCareful,
}
use billing_app_microservice.Orchestrator.Concurrent.{
  idle, clients, System, goes, serves, Step, start_saga, start_cancellation, go, give_up, arrive,
  direct, crash, turn, lapse, Reach, here, next,
}
use billing_app_microservice.Orchestrator.Concurrent.Entitled.{
  ArePaidKeys, covered-IsEntitled, direct-IsEntitled, later-IsEntitled,
}

module _ (t : BookingTable) (r : Redis) (p : PaymentTable) (axios : Axios) (env : Env) (rate : ℕ)
    (topic : String) where
  -- The keys that a saga knows to be paid, and what it does with them.
  abbrev IsTrusty : List Payment → Program (Unit {0}) → Type 0
  IsTrusty payments x = (keys : List String) × ArePaidKeys payments keys × IsCareful keys x

  record Inv (s : System t r p axios env rate topic) : Type 0 where
    sold : All (IsPaidFor (p.rows s.world.payments)) (t.rows s.world.bookings)
    late : All (IsEntitled (p.rows s.world.payments)) s.late
    trusty : (i : ℕ) → IsTrusty (p.rows s.world.payments) (s.pc i)

  later-IsTrusty :
      (xs ys : List Payment) (x : Program (Unit {0}))
      → IsAfter xs ys
      → IsTrusty xs x
      → IsTrusty ys x
  later-IsTrusty xs ys x more (keys, paid, c) =
      (keys, All-map (λ k h. more (trim k) h) keys paid, c)

  -- A call that is carried out, with what its answer tells.
  abbrev served : System t r p axios env rate topic → Call → System t r p axios env rate topic
  served = serves t r p axios env rate topic

  served-IsAfter :
      (s : System t r p axios env rate topic) (q : Call)
      → Inv s
      → IsEntitled (p.rows s.world.payments) q
      → ArePaid t r p
          (p.rows s.world.payments)
          (served s q).world.bookings
          (served s q).world.payments
  served-IsAfter s q inv given =
      ask-ArePaid t r p axios env rate topic (p.rows s.world.payments) q s.world given
        (λ key h. h, inv.sold)

  served-Inv :
      (s : System t r p axios env rate topic) (q : Call)
      → Inv s
      → IsEntitled (p.rows s.world.payments) q
      → Inv (served s q)
  served-Inv s q inv given =
      let (more, sold) = served-IsAfter s q inv given in
      record {
        sold = sold;
        late = All-map (later-IsEntitled _ _ more) s.late inv.late;
        trusty = λ i. later-IsTrusty _ _ (s.pc i) more (inv.trusty i);
      }

  goes-Inv :
      (s : System t r p axios env rate topic) (i : ℕ) (x : Program (Unit {0}))
      → Inv s
      → IsTrusty (p.rows s.world.payments) x
      → Inv (goes t r p axios env rate topic s i x)
  goes-Inv s i x inv own = record {
    sold = inv.sold;
    late = inv.late;
    trusty = λ j. elim (Bool-cases (nat_eq j i)) [
      | inl same ↦ rw same own
      | inr other ↦ rw other (inv.trusty j)
    ];
  }

  answer-ArePaidKeys :
      (s : System t r p axios env rate topic) (q : Call) (a : Result (Answer q))
      (keys : List String)
      → (ask (clients t r p axios env rate topic) topic q s.world).0 ≡ a
      → ArePaidKeys (p.rows (served s q).world.payments) keys
      → ArePaidKeys (p.rows (served s q).world.payments) (paid_by q a keys)
  answer-ArePaidKeys s (hold q) a keys e paid = paid
  answer-ArePaidKeys s (confirm id) a keys e paid = paid
  answer-ArePaidKeys s (release id reason) a keys e paid = paid
  answer-ArePaidKeys s (charge q) (ok ch) keys e paid = elim (Bool-cases (is_succeeded ch.status)) [
    | inl good ↦ rw good (charge-IsPaid t r p axios env rate topic q s.world e good, paid)
    | inr bad ↦ rw bad paid
  ]
  answer-ArePaidKeys s (charge q) (err x) keys e paid = paid
  answer-ArePaidKeys s (refund id) a keys e paid = paid
  answer-ArePaidKeys s (publish x) a keys e paid = paid

  Step-Inv :
      {s u : System t r p axios env rate topic}
      → Step t r p axios env rate topic s u
      → Inv s
      → Inv u
  Step-Inv {s} (start_saga i input at e) inv =
      rw e (goes-Inv s i _ inv ([], tt, saga-IsCareful input []))
  Step-Inv {s} (start_cancellation i now id payment at plain e) inv =
      rw e (goes-Inv s i _ inv ([], tt, cancellation-IsCareful now id payment []))
  Step-Inv {s} (go i q k at e) inv =
      let (keys, paid, careful) = rw at at (inv.trusty i) in
      let (covered, next') = careful in
      let given = covered-IsEntitled _ keys q paid covered in
      let (more, _) = served-IsAfter s q inv given in
      rw e (
        goes-Inv (served s q) i _ (served-Inv s q inv given) (
          paid_by q (ask (clients t r p axios env rate topic) topic q s.world).0 keys,
          answer-ArePaidKeys s q _ keys refl (All-map (λ z h. more (trim z) h) keys paid),
          next' (ask (clients t r p axios env rate topic) topic q s.world).0,
        ))
  Step-Inv {s} (give_up i q k x at e) inv =
      let (keys, paid, careful) = rw at at (inv.trusty i) in
      let (covered, next') = careful in
      let late : Inv (record s { late = q ∷ s.late }) = record {
        sold = inv.sold;
        late = (covered-IsEntitled _ keys q paid covered, inv.late);
        trusty = inv.trusty;
      } in
      rw e (
        goes-Inv (record s { late = q ∷ s.late }) i (k (err x)) late
          (keys, paid, rw (paid_by_err q x keys) at (next' (err x))))
  Step-Inv {s} (arrive q there e) inv =
      rw e
        (served-Inv s q inv (All-Any (IsEntitled (p.rows s.world.payments)) s.late there inv.late))
  Step-Inv {s} (direct q other e) inv = rw e (served-Inv s q inv (direct-IsEntitled _ q other))
  Step-Inv {s} (crash i e) inv = rw e (goes-Inv s i idle inv ([], tt, tt))
  Step-Inv {s} (turn xs e) inv =
      rw e (record { sold = inv.sold; late = inv.late; trusty = inv.trusty })
  Step-Inv {s} (lapse l e) inv =
      rw e (record { sold = inv.sold; late = inv.late; trusty = inv.trusty })

  Reach-Inv :
      {s u : System t r p axios env rate topic}
      → Inv s
      → Reach t r p axios env rate topic s u
      → Inv u
  Reach-Inv inv here = inv
  Reach-Inv inv (next re st) = Step-Inv st (Reach-Inv inv re)

  -- However many sagas of confirmation, and of cancellation with ids of letters, digits, `-`, `_` and
  -- `~` only, run at once, with services whose handlers run whole: with calls that are lost, whose answers are lost, that are given up and carried out later,
  -- once or more often, with sagas that stop at any call, and with any holds, releases, charges,
  -- refunds and messages of others between: as long as only sagas ask to confirm, every CONFIRMED
  -- booking has, under its key, a payment that did not fail, if this was so at the start, when no
  -- saga was under way and no call late.
  pub Reach-paid :
      (s u : System t r p axios env rate topic)
      → ((i : ℕ) → s.pc i ≡ idle)
      → s.late ≡ []
      → All (IsPaidFor (p.rows s.world.payments)) (t.rows s.world.bookings)
      → Reach t r p axios env rate topic s u
      → All (IsPaidFor (p.rows u.world.payments)) (t.rows u.world.bookings)
  Reach-paid s u quiet none_late sold re =
      let inv : Inv s = record {
        sold = sold;
        late = rw none_late tt;
        trusty = λ i. rw (quiet i) ([], tt, tt);
      } in
      (Reach-Inv inv re).sold
