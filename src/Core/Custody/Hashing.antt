-- ===== src/Core/Custody/Hashing.antt =====
-- internal/core/custody/ledger.go: computeHash and genesisHash. `json.Marshal` and `sha256.Sum256` of
-- the standard library, whose output no theorem computes, are the two functions of a `Digest`.
use dashfetchr.Base.{Bytes, codes, Option, none, some, List, ◌∷◌, ◌++◌, String}
use dashfetchr.Base.Int64.{ℤ}
use dashfetchr.Base.Time.{Time, unix_milli}
use dashfetchr.Base.Uuid.{Uuid}
use dashfetchr.Core.Errors.{Result, ok, ◌>>=◌}
use dashfetchr.Core.Custody.{EventType, Actor, GeoPoint, PhotoRef, SignatureRef, Event}

-- The struct that is marshalled. An absent field is `none`, or empty.
pub record Payload : Type 0 where
  pub event_id : Uuid
  pub delivery_id : Uuid
  pub type : EventType
  pub occurred_at : ℤ
  pub carrier_time : Option ℤ
  pub actor : Actor
  pub location : Option GeoPoint
  pub photos : List PhotoRef
  pub signature : Option SignatureRef
  pub reason : String
  pub metadata : Bytes

-- `sha256_hex` is the digest of the bytes, in hexadecimal.
pub record Digest : Type 0 where
  pub marshal : Payload → Result Bytes
  pub sha256_hex : Bytes → Bytes

unfoldable pub milli : Option Time → Option ℤ
milli none = none
milli (some t) = some (unix_milli t)

unfoldable pub payload : Event → Payload
unfolding milli unix_milli
payload e = record {
  event_id = e.event_id;
  delivery_id = e.delivery_id;
  type = e.type;
  occurred_at = unix_milli e.occurred_at;
  carrier_time = milli e.carrier_time;
  actor = e.actor;
  location = e.location;
  photos = e.photos;
  signature = e.signature;
  reason = e.reason;
  metadata = e.metadata;
}

-- The delimiter between the previous hash and the payload.
abbrev pub delimiter : Bytes → Bytes → Bytes
delimiter prev body = prev ++ 0x1f ∷ body

unfoldable pub genesis_hash : Digest → Bytes
unfolding codes
genesis_hash d = d.sha256_hex (codes "dashfetchr:custody:genesis:v1")

unfoldable pub compute_hash : Digest → Event → Result Bytes
unfolding payload
compute_hash d e = do body ← d.marshal (payload e); ok (d.sha256_hex (delimiter e.prev_hash body))
