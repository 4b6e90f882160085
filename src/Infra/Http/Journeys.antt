-- ===== src/Infra/Http/Journeys.antt =====
-- About requests that follow one another (internal/infra/http/server.go and the handlers behind it).
use dashfetchr.Base.{Option-cases, ◌≢◌, ◌≡◌, sym, ap, ◌∙◌, inl, inr, arith, some, List}
use dashfetchr.Core.Errors.{ok, Result-cases}
use dashfetchr.Core.Retailer.{Retailer}
use dashfetchr.Core.Delivery.States.{pending}
use dashfetchr.Core.Delivery.{Delivery}
use dashfetchr.Core.Awb.{Awb}
use dashfetchr.Core.Custody.{Event}
use dashfetchr.Auth.{Context, background, with_retailer}
use dashfetchr.App.Store.{Store}
use dashfetchr.App.Booking.{create_booking, CreateBookingResult, get_booking}
use dashfetchr.App.Booking.Results.{get_booking-create_booking}
use dashfetchr.Infra.Http.Message.{Request, Response, booking_created}
use dashfetchr.Infra.Http.Handlers.Bookings as Bookings
use dashfetchr.Infra.Http.Handlers.Custody as Custody
use dashfetchr.Infra.Http.Server.{Wiring, Readings, serve, post_booking, post_custody}
use dashfetchr.Infra.Http.Server as Server
use dashfetchr.Infra.Http.Access.{
  caller_admitted, api_key_of_headers, IsCaller, require_retailer_lem, require_rider_lem,
}
use dashfetchr.Infra.Http.Ownership.{get_owned, view}

-- The answer that names a new booking.
abbrev pub ticket : CreateBookingResult → Response
ticket out = record { status = 201; payload = booking_created out }

module _ (w : Wiring) (c : Readings) (ret : Retailer) (r : Request) (s : Store) where
  -- The handler, for a known retailer.
  created :
      {out : CreateBookingResult}
      → (Bookings.create w.quote w.uuid_string w.parse_time w.decode_booking c.draw
          (with_retailer background ret)
          r
          s).1
        ≡ ticket out
      → (a : Awb) × (del : Delivery) × (get_booking out.delivery_id
            (Bookings.create w.quote w.uuid_string w.parse_time w.decode_booking c.draw
              (with_retailer background ret)
              r
              s).0
          ≡ ok (del, a))
        × (del.state ≡ pending)
        × (a.retailer_id ≡ ret.id)
  unfolding Bookings.create with_retailer
  created {out} h = elim (Result-cases r.body) [
    | inr (x, p) ↦ absurd (ground arith)
    | inl (raw, p) ↦ elim (Result-cases (w.decode_booking raw)) [
      | inr (x, q) ↦ absurd (ground arith)
      | inl (body, q) ↦ elim (Option-cases (w.parse_time body.slot_start)) [
        | inl t ↦ absurd (ground arith)
        | inr (start, t) ↦ elim (Option-cases (w.parse_time body.slot_end)) [
          | inl u ↦ absurd (ground arith)
          | inr (end, u) ↦
              let i = Bookings.input_of ret body start end in
              elim (Result-cases (create_booking w.quote w.uuid_string c.draw i s).1) [
                | inr (x, v) ↦ absurd (ground arith)
                | inl (result, v) ↦
                    let (a, del, got, st, from, to, price, at, shop) =
                      get_booking-create_booking w.quote w.uuid_string c.draw i s v in
                    let named : out ≡ result = ground arith in (a, del, ground arith, st, shop)
              ]
        ]
      ]
    ]
  ]

-- A request that books, answered by a ticket, and then a request with the same headers that names the
-- ticket's delivery: the second is answered by the booking, pending, of a parcel of the retailer whose key
-- both carry.
pub serve_get-serve_booking :
    (w : Wiring) (c c2 : Readings) (r r2 : Request) (s : Store) {out : CreateBookingResult}
    → (serve w c post_booking r s).1 ≡ ticket out
    → r2.headers ≡ r.headers
    → w.parse_uuid r2.delivery_id ≡ some out.delivery_id
    → (ret : Retailer) × (a : Awb) × (del : Delivery) × (es : List Event) × IsCaller
        w.get_by_api_key_hash w.sha256_hex r ret
      × ((serve w c2 Server.get_booking r2 (serve w c post_booking r s).0).1 ≡ view del a es)
      × (del.state ≡ pending)
      × (a.retailer_id ≡ ret.id)
unfolding serve
serve_get-serve_booking w c c2 r r2 s {out} h same named =
    elim (require_retailer_lem w.get_by_api_key_hash w.sha256_hex
      (Bookings.create w.quote w.uuid_string w.parse_time w.decode_booking c.draw) background r s) [
        | inr (kept, status) ↦ absurd (ground arith)
        | inl (ret, caller, e) ↦
            let answer = sym (ap (λ (p : Store × Response). p.1) e) ∙ h in
            let (a, del, got, st, shop) = created w c ret r s answer in
            let key = api_key_of_headers r r2 same in
            let caller2 : IsCaller w.get_by_api_key_hash w.sha256_hex r2 ret = ground arith in
            let (es, shown) = get_owned w.parse_uuid w.digest background ret r2 _ named got shop in
            let read = Bookings.get w.parse_uuid w.digest in
            let admitted =
              caller_admitted w.get_by_api_key_hash w.sha256_hex read background r2 _ ret caller2 in
            (
              ret,
              a,
              del,
              es,
              caller,
              ap (λ (p : Store × Response). (serve w c2 Server.get_booking r2 p.0).1) e
                  ∙ ap (λ (p : Store × Response). p.1) admitted
                  ∙ shown,
              st,
              shop,
            )
      ]

-- The handler behind the rider's token reads the path and the body alone.
any_context :
    (w : Wiring) (c : Readings) (r r2 : Request) (s : Store) (k l : Context)
    → r.delivery_id ≡ r2.delivery_id
    → r.body ≡ r2.body
    → Custody.record_event w.digest w.decode_custody w.parse_uuid c.event k r s
      ≡ Custody.record_event w.digest w.decode_custody w.parse_uuid c.event l r2 s
unfolding Custody.record_event
any_context w c r r2 s k l id body = ground arith

-- The custody handler does not ask which carrier a token is for: two requests with the same path and body
-- that are not answered by 401, whatever their tokens, are answered alike and leave the same stores.
pub serve_custody_any_carrier :
    (w : Wiring) (c : Readings) (r r2 : Request) (s : Store)
    → (serve w c post_custody r s).1.status ≢ 401
    → (serve w c post_custody r2 s).1.status ≢ 401
    → r.delivery_id ≡ r2.delivery_id
    → r.body ≡ r2.body
    → serve w c post_custody r s ≡ serve w c post_custody r2 s
unfolding serve
serve_custody_any_carrier w c r r2 s p q id body =
    let go = Custody.record_event w.digest w.decode_custody w.parse_uuid c.event in
    elim (require_rider_lem w.rider_secrets go background r s) [
      | inr (same, status) ↦ absurd (p status)
      | inl (x, rider, e) ↦ elim (require_rider_lem w.rider_secrets go background r2 s) [
        | inr (same, status) ↦ absurd (q status)
        | inl (y, rider2, f) ↦ e ∙ any_context w c r r2 s _ _ id body ∙ sym f
      ]
    ]
