-- ===== src/Examples/Fixtures.antt =====
-- The data of the runs: two clock readings, places, a delivery, a parcel, events, carriers.
use dashfetchr.Base.{ℕ, ◌+◌, length, true, false, none, some, String, List, [], ◌∷◌}
use dashfetchr.Base.Int64.{pos}
use dashfetchr.Base.Float64.{whole}
use dashfetchr.Base.Time.{Time}
use dashfetchr.Core.Errors.{Result, ok, err, external}
use dashfetchr.Core.Delivery as Delivery
use dashfetchr.Core.Delivery.States as States
use dashfetchr.Core.Awb as Awb
use dashfetchr.Core.Awb.Internal.{Entropy}
use dashfetchr.Core.Custody as Custody
use dashfetchr.Core.Custody.Hashing.{Digest}
use dashfetchr.Ports.Carrier as Carrier

abbrev pub noon : Time
noon = record { nanos = 63000000000000000000; zone = pos 0 }

abbrev pub evening : Time
evening = record { nanos = 63000021600000000000; zone = pos 0 }

abbrev pub night : Time
night = record { nanos = 63000036000000000000; zone = pos 0 }

abbrev pub locker_place : Delivery.Location
locker_place = record {
  type = Delivery.locker;
  lat = whole 44;
  lng = whole 26;
  address = "Locker 7";
  locker_id = "L7";
  hub_id = "";
  floor = "";
  apartment = "";
  instructions = "";
}

abbrev pub home : Delivery.Location
home = record {
  type = Delivery.address;
  lat = whole 45;
  lng = whole 26;
  address = "Strada Lunga 1";
  locker_id = "";
  hub_id = "";
  floor = "2";
  apartment = "9";
  instructions = "";
}

abbrev pub delivery_in : States.State → Delivery.Delivery
delivery_in state = record {
  id = 7;
  awb_id = 5;
  leg_number = pos 1;
  carrier_id = "bolt_food";
  carrier_version = "v1";
  carrier_external_id = "B-1";
  pickup = locker_place;
  drop = home;
  scheduled_window_start = none;
  scheduled_window_end = none;
  state = state;
  state_reason = "";
  rider = none;
  price_quoted_minor = pos 1200;
  price_charged_minor = pos 0;
  price_currency = "RON";
  estimated_pickup_at = none;
  estimated_drop_at = none;
  actual_pickup_at = none;
  actual_drop_at = none;
  idempotency_key = "7";
  created_at = noon;
  updated_at = noon;
}

abbrev pub waiting : Delivery.Delivery
waiting = delivery_in States.pending

abbrev pub box : Awb.Package
box = record {
  weight_kg = whole 2;
  length_cm = whole 30;
  width_cm = whole 20;
  height_cm = whole 10;
  declared_value_minor = pos 0;
  declared_value_ccy = "";
  description = "";
  fragile = false;
}

abbrev pub parcel : Awb.Awb
parcel = Awb.initial 5 (1 ∷ 2 ∷ []) noon 3 box

abbrev pub seed : Entropy
seed = record { b0 = 1; b1 = 2; b2 = 3; b3 = 4; b4 = 250 }

-- The digest of a text is its length, as one character from `0` on.
abbrev pub tally : Digest
tally = record { marshal = λ p. ok (p.event_id ∷ []); sha256_hex = λ b. (48 + length b) ∷ [] }

abbrev pub courier : Custody.Actor
courier = record { type = "rider"; carrier_id = "bolt_food"; id = "R1"; name = "Ana" }

abbrev pub here : Custody.GeoPoint
here = record {
  lat = whole 44;
  lng = whole 26;
  accuracy_m = whole 5;
  altitude = whole 0;
  heading = whole 0;
}

abbrev pub picture : Custody.PhotoRef
picture = record {
  s3_uri = "s3://pod/1";
  sha256 = "aa";
  content_type = "image/jpeg";
  width = pos 640;
  height = pos 480;
  exif_gps = none;
}

abbrev pub event_of_type : Custody.EventType → Custody.Event
event_of_type t = record {
  event_id = 0;
  delivery_id = 7;
  sequence_num = pos 0;
  type = t;
  occurred_at = noon;
  carrier_time = none;
  actor = courier;
  location = some here;
  photos = picture ∷ [];
  signature = none;
  reason = "";
  metadata = [];
  prev_hash = [];
  hash = [];
}

abbrev pub capabilities_of : String → Carrier.Capabilities
capabilities_of id = record {
  id = id;
  name = id;
  roles = Carrier.last_mile ∷ [];
  max_weight_kg = whole 15;
  max_dimensions_cm = record { d0 = whole 60; d1 = whole 40; d2 = whole 40 };
  zones = [];
  delivery_modes = [];
  pickup_modes = Carrier.address ∷ Carrier.locker ∷ [];
  pod = [];
  sla = record { avg_pickup_time = pos 1; avg_delivery_time = pos 2; max_delay = pos 3 };
  supports_locker = true;
  auth_scheme = Carrier.api_key;
  api_rate_limit = record { requests = pos 60; per_second = whole 1 };
  quirks = [];
}

abbrev pub estimate_of : ℕ → Carrier.Estimate
estimate_of n = record {
  cost = record { currency = "RON"; minor = pos n };
  estimated_eta = pos (1000 + n);
  window_start_at = none;
  window_end_at = none;
  confidence_score = whole 1;
}

abbrev pub shipped : Carrier.ShipmentResponse
shipped = record {
  external_id = "B-1";
  state = Carrier.assigned;
  estimated_cost = record { currency = "RON"; minor = pos 1 };
  estimated_pickup_at = none;
  estimated_drop_at = none;
  tracking_url = "";
}

abbrev pub carrier : String → Result Carrier.Estimate → Carrier.Carrier
carrier id answer = record {
  capabilities = capabilities_of id;
  create_shipment = λ req. ok shipped;
  get_shipment_status = λ x. err (external "no status");
  cancel_shipment = λ x reason. none;
  get_estimate = λ req. answer;
  parse_webhook = λ raw headers. ok [];
}

abbrev pub dear : Carrier.Carrier
dear = carrier "dear" (ok (estimate_of 900))

abbrev pub cheap : Carrier.Carrier
cheap = carrier "cheap" (ok (estimate_of 500))

abbrev pub silent : Carrier.Carrier
silent = carrier "silent" (err (external "timeout"))

-- The order in which the entries stand.
abbrev pub as_stored {ℓ} : {A : Type ℓ} → List A → List A
as_stored m = m
