-- ===== src/Infra/Http/Ownership.antt =====
-- About whose bookings a retailer reads and dispatches (internal/infra/http/handlers/bookings.go).
use dashfetchr.Base.{
  refl, none, [], sym, ◌∙◌, ap, ◌==◌, ==_iff, Option-cases, Bool-cases, ◌⊎◌, ◌≢◌, ◌≡◌, inl, inr,
  arith, Option, some, String, List,
}
use dashfetchr.Base.Time.{Time}
use dashfetchr.Base.Uuid.{Uuid}
use dashfetchr.Core.Errors.{not_found, error_text, Error, ok, err, Result-cases}
use dashfetchr.Core.Retailer.{Retailer}
use dashfetchr.Core.Delivery.{Delivery}
use dashfetchr.Core.Awb.{Awb}
use dashfetchr.Core.Custody.{Event}
use dashfetchr.Core.Custody.Hashing.{Digest}
use dashfetchr.Ports.Carrier.{Carrier}
use dashfetchr.Routing.Strategy.{Strategy}
use dashfetchr.Auth.{background, Context, with_retailer}
use dashfetchr.App.Store.{Store}
use dashfetchr.App.Custodyapp.{list_events}
use dashfetchr.App.Booking.{get_booking}
use dashfetchr.Base.Maps.{lookup, nat_eq}
use dashfetchr.Infra.Memory.DeliveryRepo.{get_by_id}
use dashfetchr.Infra.Http.Message.{
  Text, message_text, literal, of_error, error_body, Request, Response, booking_view,
}
use dashfetchr.Infra.Http.Handlers.Bookings as Bookings
use dashfetchr.Infra.Http.Server.{Wiring, Readings, serve, post_dispatch, post_booking}
use dashfetchr.Infra.Http.Server as Server
use dashfetchr.Infra.Http.Access.{IsCaller, require_retailer_lem}

-- The booking that the path names is there, and its parcel is this retailer's.
abbrev pub IsOwner : (String → Option Uuid) → Request → Store → Retailer → Type 0
IsOwner parse_uuid r s ret =
    (id : Uuid) × (del : Delivery) × (a : Awb) × (parse_uuid r.delivery_id ≡ some id)
    × (get_booking id s ≡ ok (del, a))
    × (a.retailer_id ≡ ret.id)

module _ (parse_uuid : String → Option Uuid) (strategy : Strategy) (registered : List Carrier)
    (now later : Time) (ctx : Context) (ret : Retailer) (r : Request) (s : Store) where
  dispatch_handler :
      IsOwner parse_uuid r s ret
      ⊎ ((Bookings.dispatch parse_uuid strategy registered now later (with_retailer ctx ret) r s).0
          ≡ s)
  unfolding Bookings.dispatch with_retailer
  dispatch_handler = elim (Option-cases (parse_uuid r.delivery_id)) [
    | inl p ↦ inr (ground arith)
    | inr (id, p) ↦ elim (Result-cases (get_booking id s)) [
      | inr (x, q) ↦ inr (ground arith)
      | inl ((del, a), q) ↦ elim (Bool-cases (a.retailer_id == ret.id)) [
        | inr n ↦ inr (ground arith)
        | inl y ↦ inl (id, del, a, p, q, (==_iff a.retailer_id ret.id).0 y)
      ]
    ]
  ]

-- No dispatch request changes a store unless it carries the key of an active retailer, and names a booking
-- that is this retailer's.
pub serve_dispatch_lem :
    (w : Wiring) (c : Readings) (r : Request) (s : Store)
    → ((serve w c post_dispatch r s).0 ≡ s)
      ⊎ ((ret : Retailer) × IsCaller w.get_by_api_key_hash w.sha256_hex r ret
          × IsOwner w.parse_uuid r s ret)
unfolding serve
serve_dispatch_lem w c r s =
    let go = Bookings.dispatch w.parse_uuid w.strategy w.registered c.now c.later in
    elim (require_retailer_lem w.get_by_api_key_hash w.sha256_hex go background r s) [
      | inr (same, status) ↦ inl same
      | inl (ret, caller, e) ↦
          elim (dispatch_handler w.parse_uuid w.strategy w.registered c.now c.later background ret r
            s) [
              | inl owner ↦ inr (ret, caller, owner)
              | inr same ↦ inl (ap (λ (p : Store × Response). p.0) e ∙ same)
            ]
    ]

-- The answer that shows a booking.
abbrev pub view : Delivery → Awb → List Event → Response
view del a es = record { status = 200; payload = booking_view del a es }

module _ (parse_uuid : String → Option Uuid) (d : Digest) (ctx : Context) (ret : Retailer)
    (r : Request) (s : Store) where
  get_handler :
      ((Bookings.get parse_uuid d (with_retailer ctx ret) r s).0 ≡ s)
      × ((del : Delivery) (a : Awb) (es : List Event)
          → (Bookings.get parse_uuid d (with_retailer ctx ret) r s).1 ≡ view del a es
          → (id : Uuid) × (parse_uuid r.delivery_id ≡ some id)
            × (get_booking id s ≡ ok (del, a))
            × (a.retailer_id ≡ ret.id))
  unfolding Bookings.get with_retailer
  get_handler = elim (Option-cases (parse_uuid r.delivery_id)) [
    | inl p ↦ (ground arith, λ del a es h. absurd (ground arith))
    | inr (id, p) ↦ elim (Result-cases (get_booking id s)) [
      | inr (x, q) ↦ (ground arith, λ del a es h. absurd (ground arith))
      | inl ((k, b), q) ↦ elim (Bool-cases (b.retailer_id == ret.id)) [
        | inr n ↦ (ground arith, λ del a es h. absurd (ground arith))
        | inl y ↦ (
          ground arith,
          λ del a es h. (id, p, ground arith, ground (arith, ==_iff b.retailer_id ret.id)),
        )
      ]
    ]
  ]

  -- What Get answers where there is no booking, and where it is another retailer's.
  pub get_missing :
      {id : Uuid} {x : Error}
      → parse_uuid r.delivery_id ≡ some id
      → get_booking id s ≡ err x
      → (Bookings.get parse_uuid d (with_retailer ctx ret) r s).1
        ≡ record { status = 404; payload = error_body (of_error x) "not_found" }
  unfolding Bookings.get with_retailer
  get_missing p q = ground arith

  pub get_foreign :
      {id : Uuid} {del : Delivery} {a : Awb}
      → parse_uuid r.delivery_id ≡ some id
      → get_booking id s ≡ ok (del, a)
      → a.retailer_id ≢ ret.id
      → (Bookings.get parse_uuid d (with_retailer ctx ret) r s).1
        ≡ record { status = 404; payload = error_body (literal "booking not found") "not_found" }
  unfolding Bookings.get with_retailer
  get_foreign {a} p q n = ground (arith, ==_iff a.retailer_id ret.id)

  pub get_owned :
      {id : Uuid} {del : Delivery} {a : Awb}
      → parse_uuid r.delivery_id ≡ some id
      → get_booking id s ≡ ok (del, a)
      → a.retailer_id ≡ ret.id
      → (es : List Event) × ((Bookings.get parse_uuid d (with_retailer ctx ret) r s).1
          ≡ view del a es)
  unfolding Bookings.get with_retailer
  get_owned {id} {del} {a} p q own =
      let y = (==_iff a.retailer_id ret.id).1 own in
      elim (Result-cases (list_events d id s)) [
        | inl (es, e) ↦ (es, ground arith)
        | inr (x, e) ↦ ([], ground arith)
      ]

-- A read changes no store, and its answer shows a booking only to the active retailer whose key the request
-- carries: the booking is the one that the path names, and it is this retailer's.
pub serve_get_lem :
    (w : Wiring) (c : Readings) (r : Request) (s : Store)
    → ((serve w c Server.get_booking r s).0 ≡ s)
      × ((del : Delivery) (a : Awb) (es : List Event)
          → (serve w c Server.get_booking r s).1 ≡ view del a es
          → (ret : Retailer) × IsCaller w.get_by_api_key_hash w.sha256_hex r ret
            × ((id : Uuid) × (w.parse_uuid r.delivery_id ≡ some id)
                × (get_booking id s ≡ ok (del, a))
                × (a.retailer_id ≡ ret.id)))
unfolding serve
serve_get_lem w c r s =
    elim (require_retailer_lem w.get_by_api_key_hash w.sha256_hex
      (Bookings.get w.parse_uuid w.digest) background r s) [
        | inr (same, status) ↦ (same, λ del a es h. absurd (ground arith))
        | inl (ret, caller, e) ↦
            let (same, shown) = get_handler w.parse_uuid w.digest background ret r s in
            (
              ap (λ (p : Store × Response). p.0) e ∙ same,
              λ del a es h.
                  (ret, caller, shown del a es (sym (ap (λ (p : Store × Response). p.1) e) ∙ h)),
            )
      ]

get_booking_missing :
    (id : Uuid) (s : Store) → lookup id s.deliveries.by_id ≡ none → get_booking id s ≡ err not_found
unfolding get_booking get_by_id
get_booking_missing id s h = ground arith

-- A caller can tell a delivery that is not there from another retailer's booking: both are answered by 404, the
-- first with the message "not found" and the second with "booking not found".
pub get_foreign-ne-get_missing :
    (parse_uuid : String → Option Uuid) (d : Digest) (ctx : Context) (ret : Retailer)
    (missing foreign : Request) (s : Store) {i j : Uuid} {del : Delivery} {a : Awb}
    → parse_uuid missing.delivery_id ≡ some i
    → lookup i s.deliveries.by_id ≡ none
    → parse_uuid foreign.delivery_id ≡ some j
    → get_booking j s ≡ ok (del, a)
    → a.retailer_id ≢ ret.id
    → (m : Text) × (n : Text) × ((Bookings.get parse_uuid d (with_retailer ctx ret) missing s).1
        ≡ record { status = 404; payload = error_body m "not_found" })
      × ((Bookings.get parse_uuid d (with_retailer ctx ret) foreign s).1
          ≡ record { status = 404; payload = error_body n "not_found" })
      × (message_text m ≡ some "not found")
      × (message_text n ≡ some "booking not found")
unfolding message_text error_text
get_foreign-ne-get_missing parse_uuid d ctx ret missing foreign s p q u v n = (
  of_error not_found,
  literal "booking not found",
  get_missing parse_uuid d ctx ret missing s p (get_booking_missing _ s q),
  get_foreign parse_uuid d ctx ret foreign s u v n,
  refl,
  refl,
)
