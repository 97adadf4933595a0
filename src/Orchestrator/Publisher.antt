-- ===== src/Orchestrator/Publisher.antt =====
-- booking-orchestrator/src/config/kafka.ts, `KafkaEventPublisher`, over the producer of the package
-- kafkajs; and the names and payloads with which the saga calls it.
use billing_app_microservice.Prelude.{
  String, Bool, true, false, List, [], ◌∷◌, ◌≡◌, refl, sym, ◌∙◌, ap, inl, inr, arith, Any,
  if◌then◌else◌,
}
use billing_app_microservice.Prelude.Js.{is_empty}
use billing_app_microservice.Effect.{ok, err, Action, pure, catch, ◌>>◌, Outcome-cases}
use billing_app_microservice.Utils.Errors.{Error}
use billing_app_microservice.Orchestrator.Clients.{
  Event, booking_confirmed, booking_failed, booking_cancelled,
}

abbrev pub event_name : Event → String
event_name (booking_confirmed _ _ _ _ _ _ _) = "BookingConfirmed"
event_name (booking_failed _ _ _) = "BookingFailed"
event_name (booking_cancelled _ _ _) = "BookingCancelled"

-- `payload.bookingId`
abbrev pub booking_id_of : Event → String
booking_id_of (booking_confirmed id _ _ _ _ _ _) = id
booking_id_of (booking_failed id _ _) = id
booking_id_of (booking_cancelled id _ _) = id

-- A record for the topic; its value is the text of the three fields `event`, `data`, `timestamp`, and
-- its headers are `eventType` and `source`.
pub record Message : Type 0 where
  pub topic : String
  pub key : String
  pub event : String
  pub payload : Event
  pub timestamp : String
  pub event_type : String
  pub source : String

-- The producer: the records that a broker has taken, and calls of which any may throw.
pub record Producer : Type 1 where
  pub Store : Type 0
  pub taken : Store → List Message
  pub connect : Action Store (Unit {0})
  pub disconnect : Action Store (Unit {0})
  pub send : Message → Action Store (Unit {0})
  pub connect_taken : (s : Store) → taken (connect s).1 ≡ taken s
  pub disconnect_taken : (s : Store) → taken (disconnect s).1 ≡ taken s
  -- a send that resolves was acknowledged: the record is there once at least
  pub send_ok :
      (m : Message) (s : Store) {s' : Store} → send m s ≡ (ok tt, s') → Any (λ x. x ≡ m) (taken s')

module _ (k : Producer) where
  pub record Publisher : Type 0 where
    pub producer : k.Store
    pub is_connected : Bool

  abbrev on_producer : {A : Type 0} → Action k.Store A → Action Publisher A
  on_producer m s = let (a, p) = m s.producer in (a, record s { producer = p })

  abbrev set_connected : Bool → Action Publisher (Unit {0})
  set_connected b s = (ok tt, record s { is_connected = b })

  unfoldable pub connect : Action Publisher (Unit {0})
  connect s = if s.is_connected then pure tt s else (on_producer k.connect >> set_connected true) s

  -- An error is logged, and the publisher counts as connected still.
  unfoldable pub disconnect : Action Publisher (Unit {0})
  disconnect s =
      if s.is_connected
      then catch (on_producer k.disconnect >> set_connected false) (λ e. pure tt) s
      else pure tt s

  abbrev pub message : (source topic timestamp : String) → Event → Message
  message source topic timestamp e = record {
    topic = topic;
    key = if is_empty (booking_id_of e) then event_name e else booking_id_of e;
    event = event_name e;
    payload = e;
    timestamp = timestamp;
    event_type = event_name e;
    source = source;
  }

  -- A record that carries an event.
  pub record IsRecord (source topic timestamp : String) (e : Event) (m : Message) : Type 0 where
    pub under : m.topic ≡ topic
    pub keyed : is_empty (booking_id_of e) ≡ false → m.key ≡ booking_id_of e
    pub keyed_by_name : is_empty (booking_id_of e) ≡ true → m.key ≡ event_name e
    pub event : m.event ≡ event_name e
    pub payload : m.payload ≡ e
    pub header : m.event_type ≡ event_name e
    pub timestamp_kept : m.timestamp ≡ timestamp
    pub source_kept : m.source ≡ source

  message-IsRecord :
      (source topic timestamp : String) (e : Event) (m : Message)
      → m ≡ message source topic timestamp e
      → IsRecord source topic timestamp e m
  message-IsRecord source topic timestamp e m same = rw same (record {
    under = refl;
    keyed = λ h. ground arith;
    keyed_by_name = λ h. ground arith;
    event = refl;
    payload = refl;
    header = refl;
    timestamp_kept = refl;
    source_kept = refl;
  })

  Any-IsRecord :
      (source topic timestamp : String) (e : Event) (ms : List Message)
      → Any (λ m. m ≡ message source topic timestamp e) ms
      → Any (IsRecord source topic timestamp e) ms
  Any-IsRecord source topic timestamp e [] h = elim h [ ]
  Any-IsRecord source topic timestamp e (m ∷ ms) (inl here) =
      inl (message-IsRecord source topic timestamp e m here)
  Any-IsRecord source topic timestamp e (m ∷ ms) (inr there) =
      inr (Any-IsRecord source topic timestamp e ms there)

  -- `if (!this.isConnected) await this.connect()`
  abbrev connect_first : Action Publisher (Unit {0})
  connect_first s = if s.is_connected then pure tt s else connect s

  unfoldable pub publish : (source timestamp topic : String) → Event → Action Publisher (Unit {0})
  publish source timestamp topic e = do
    connect_first
    on_producer (k.send (message source topic timestamp e))

  connect_first-live :
      (s : Publisher) {s' : Publisher} → connect_first s ≡ (ok tt, s') → s'.is_connected ≡ true
  unfolding connect
  connect_first-live s e = elim (Outcome-cases (k.connect s.producer)) [
    | inl (_, p, up) ↦ ground arith
    | inr (x, p, down) ↦ ground arith
  ]

  -- A publication that resolves leaves the publisher connected, and a broker has a record under the
  -- topic asked for, with the event, its name (as the event and in the header), the time and the
  -- source, keyed by the event's booking id; or by its name if this id is empty.
  pub publish-ok :
      (source timestamp topic : String) (e : Event) (s : Publisher) {s' : Publisher}
      → publish source timestamp topic e s ≡ (ok tt, s')
      → (s'.is_connected ≡ true) × Any (IsRecord source topic timestamp e) (k.taken s'.producer)
  unfolding publish
  publish-ok source timestamp topic e s {s'} done = elim (Outcome-cases (connect_first s)) [
    | inl (_, s₁, first) ↦
        elim (Outcome-cases (k.send (message source topic timestamp e) s₁.producer)) [
          | inl (_, p, sent) ↦
              let live = connect_first-live s first in
              let end : s' ≡ record s₁ { producer = p } = ground arith in
              rw end (
                live,
                Any-IsRecord source topic timestamp e _
                    (k.send_ok (message source topic timestamp e) s₁.producer sent),
              )
          | inr (x, p, thrown) ↦ absurd (ground arith)
        ]
    | inr (x, s₁, thrown) ↦ absurd (ground arith)
  ]

  -- A publication that cannot connect throws the connection's error, has sent nothing, and leaves the
  -- publisher unconnected, so that the next publication tries to connect again.
  pub publish-unconnected :
      (source timestamp topic : String) (e : Event) (q : k.Store) {x : Error} {p : k.Store}
      → k.connect q ≡ (err x, p)
      → (publish source timestamp topic e (record { producer = q; is_connected = false })
          ≡ (err x, record { producer = p; is_connected = false }))
        × (k.taken p ≡ k.taken q)
  unfolding publish connect
  publish-unconnected source timestamp topic e q {x} {p} down =
      (ground arith, ap (λ z. k.taken z.1) (sym down) ∙ k.connect_taken q)
