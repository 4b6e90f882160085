-- ===== src/Examples/Api.antt =====
-- The data of the runs of the API and of Bolt's adapter: toy functions for the code outside of the program.
use dashfetchr.Base.{ℕ, true, Option, none, some, String, Bytes, [], ◌∷◌, str_eq, if◌then◌else◌}
use dashfetchr.Base.Int64.{ℤ, pos}
use dashfetchr.Base.Float64.{Float64, whole, half}
use dashfetchr.Base.Time.{Time}
use dashfetchr.Base.Uuid.{Uuid}
use dashfetchr.Core.Errors.{Result, ok, err, external}
use dashfetchr.Core.Retailer.{Retailer}
use dashfetchr.Core.Pricing.{Maths}
use dashfetchr.Adapters.Bolt.Types.{BoltOrder, BoltWebhookPayload}
use dashfetchr.Adapters.Bolt.Client as Bolt
use dashfetchr.Infra.Http.Message.{Request}
use dashfetchr.Infra.Http.Handlers.Bookings.{CreateBookingRequest}
use dashfetchr.Infra.Http.Handlers.Custody.{RecordCustodyRequest}
use dashfetchr.Infra.Http.Server.{Wiring, Readings}
use dashfetchr.App.Wiring.{Outside, Config}
use dashfetchr.Registry.{new_registry}
use dashfetchr.Routing.Strategy.{cheapest_strategy}
use dashfetchr.Examples.Fixtures.{noon, evening, night, tally, courier, dear, as_stored}
use dashfetchr.Examples.Services.{draw, reading, price, print}

abbrev pub bolt_order : BoltOrder
bolt_order = record {
  order_id = "B-1";
  status = "assigned";
  price = record { cents = pos 900; currency = "RON" };
  estimated_pickup = none;
  estimated_drop = none;
  tracking_url = "";
  rider = none;
  last_location = none;
  updated_at = noon;
}

-- A network that answers every request with this status and an empty body.
abbrev pub net : ℕ → Bolt.Net
net status = record {
  marshal_order = λ req. ok [];
  marshal_estimate = λ req. ok [];
  marshal_reason = λ reason. ok [];
  new_request = λ method url. none;
  send = λ req. ok (record { status = status; body = [] });
  decode_order = λ b. ok bolt_order;
  decode_estimate = λ b. ok (record {
    price = record { cents = pos 900; currency = "RON" };
    estimated_eta_sec = pos 60;
    confidence = whole 1;
  });
}

abbrev pub bolt_config : Bolt.Config
bolt_config = record {
  base_url = "https://node.bolt.eu";
  api_key = "k";
  webhook_secret = "s";
  service_area = "bucharest";
}

-- The digest is the secret itself.
abbrev pub toy_hmac : String → Bytes → String
toy_hmac secret body = secret

abbrev pub arrival : BoltWebhookPayload
arrival = record {
  event = "order.arrived_at_pickup";
  order_id = "B-1";
  timestamp = noon;
  rider = none;
  location = none;
  photo_url = "p";
  reason = "";
}

abbrev pub unmarshal : Bytes → Result BoltWebhookPayload
unmarshal b = ok arrival

abbrev pub wild : Float64 → ℤ
wild f = pos 0

-- Functions under which every two places are one radius of the earth apart.
abbrev pub flat : Maths
flat = record { sin = λ x. whole 0; cos = λ x. whole 1; sqrt = λ x. whole 1; atan2 = λ x y. half }

abbrev pub same_text : String → String
same_text s = s

abbrev pub parse_uuid : String → Option Uuid
parse_uuid s = if str_eq s "7" then some 7 else if str_eq s "8" then some 8 else none

abbrev pub parse_time : String → Option Time
parse_time s =
    if str_eq s "evening" then some evening else if str_eq s "night" then some night else none

abbrev pub booking_body : CreateBookingRequest
booking_body = record {
  external_awb = "S-1";
  external_carrier = "sameday";
  customer_phone = "07";
  customer_name = "Ion";
  pickup_locker_id = "L7";
  pickup_lat = whole 44;
  pickup_lng = whole 26;
  pickup_address = "Locker 7";
  drop_lat = whole 45;
  drop_lng = whole 26;
  drop_address = "Strada Lunga 1";
  drop_floor = "2";
  drop_apartment = "9";
  drop_instructions = "";
  weight_kg = whole 2;
  slot_start = "evening";
  slot_end = "night";
  last_mile_carrier = "";
}

abbrev pub custody_body : RecordCustodyRequest
custody_body = record {
  type = "rider.assigned";
  actor = courier;
  location = none;
  photos = [];
  reason = "";
}

abbrev pub shop : Retailer
shop = record { id = 3; name = "Shop"; slug = "shop"; is_active = true }

abbrev pub other_shop : Retailer
other_shop = record { id = 4; name = "Other"; slug = "other"; is_active = true }

-- The keys are their own hashes.
abbrev pub shops : String → Result Retailer
shops hash =
    if str_eq hash "key"
    then ok shop
    else if str_eq hash "other"
    then ok other_shop
    else err (external "no shop")

abbrev pub desk_api : Wiring
desk_api = record {
  sha256_hex = same_text;
  digest = tally;
  parse_uuid = parse_uuid;
  parse_time = parse_time;
  uuid_string = print;
  decode_booking = λ b. ok booking_body;
  decode_custody = λ b. ok custody_body;
  visits = as_stored;
  get_by_api_key_hash = shops;
  rider_secrets = ("bolt_food", "b") ∷ ("glovo", "g") ∷ [];
  quote = price;
  registry = new_registry;
  registered = dear ∷ [];
  strategy = cheapest_strategy;
  pool = none;
}

abbrev pub readings : Readings
readings = record {
  draw = draw;
  now = noon;
  later = noon;
  event = reading 101;
  events = λ n. reading 101;
}

-- A request with this Authorization header, on the delivery that the path names.
abbrev pub request : (authorization delivery_id : String) → Request
request authorization delivery_id = record {
  headers = ("Authorization", authorization) ∷ [];
  delivery_id = delivery_id;
  body = ok [];
}

abbrev pub outside : Outside
outside = record {
  order = as_stored;
  visits = as_stored;
  hmac_hex = toy_hmac;
  unmarshal = unmarshal;
  net = net 200;
  wild = wild;
  maths = flat;
  sha256_hex = same_text;
  digest = tally;
  parse_uuid = parse_uuid;
  parse_time = parse_time;
  uuid_string = print;
  decode_booking = λ b. ok booking_body;
  decode_custody = λ b. ok custody_body;
}

abbrev pub api_config : Config
api_config = record { bolt = bolt_config; rider_secret = "b" }
