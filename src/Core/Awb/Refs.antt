-- ===== src/Core/Awb/Refs.antt =====
-- The carriers' tracking numbers of a parcel (internal/core/awb, AttachExternal and FindExternal).
use dashfetchr.Base.{
  Option, none, some, true, false, none, some, ◌≡◌, refl, String, List, [], ◌∷◌, ◌++◌, arith,
  str_eq, eq_iff, eq_refl, Bool-cases, inl, inr, if◌then◌else◌, ◌&&◌, ◌||◌,
}
use dashfetchr.Base.Time.{Time}
use dashfetchr.Core.Awb.{Awb, ExternalRef, Role, is_attached, attach_external, find_external}

-- A tracking number stands once in the list.
abbrev pub IsDistinct : List ExternalRef → Type 0
IsDistinct [] = Unit
IsDistinct (r ∷ rs) = (is_attached r.carrier r.awb rs ≡ false) × IsDistinct rs

is_attached-append :
    (c x : String) (rs : List ExternalRef) (r : ExternalRef)
    → is_attached c x (rs ++ r ∷ [])
      ≡ (is_attached c x rs || (str_eq r.carrier c && str_eq r.awb x))
unfolding is_attached
is_attached-append c x [] r = ground arith
is_attached-append c x (s ∷ rs) r = ground (arith, is_attached-append c x rs r)

IsDistinct-append :
    (rs : List ExternalRef) (r : ExternalRef)
    → IsDistinct rs
    → is_attached r.carrier r.awb rs ≡ false
    → IsDistinct (rs ++ r ∷ [])
unfolding is_attached
IsDistinct-append [] r d h = (refl, tt)
IsDistinct-append (s ∷ rs) r d h = (
  ground (
    arith,
    is_attached-append s.carrier s.awb rs r,
    eq_iff s.carrier r.carrier,
    eq_iff r.carrier s.carrier,
    eq_iff s.awb r.awb,
    eq_iff r.awb s.awb,
  ),
  IsDistinct-append rs r d.1 (ground arith),
)

module _ (c x : String) (role : Role) (now : Time) (a : Awb) where
  -- After `AttachExternal` the tracking number is attached.
  is_attached-attach_external :
      is_attached c x (attach_external c x role now a).external_awbs ≡ true
  unfolding attach_external
  is_attached-attach_external = elim (Bool-cases (is_attached c x a.external_awbs)) [
    | inl e ↦ rw e e
    | inr e ↦ rw e (
        rw (is_attached-append c x a.external_awbs (record { carrier = c; awb = x; role = role }))
          (ground (arith, eq_refl c, eq_refl x)))
  ]

  -- Attaching a tracking number once more, with any role and at any time, changes nothing.
  pub attach_external_again :
      (role' : Role) (now' : Time)
      → attach_external c x role' now' (attach_external c x role now a)
        ≡ attach_external c x role now a
  attach_external_again role' now' =
      let h = is_attached-attach_external in unfold attach_external in ground arith

  -- `AttachExternal` keeps every tracking number of a parcel distinct.
  pub attach_external-IsDistinct :
      IsDistinct a.external_awbs → IsDistinct (attach_external c x role now a).external_awbs
  unfolding attach_external
  attach_external-IsDistinct d = elim (Bool-cases (is_attached c x a.external_awbs)) [
    | inl e ↦ rw e d
    | inr e ↦
        rw e (IsDistinct-append a.external_awbs (record { carrier = c; awb = x; role = role }) d e)
  ]

-- The first value that is there.
abbrev pub or_else : Option ExternalRef → Option ExternalRef → Option ExternalRef
or_else (some r) o = some r
or_else none o = o

or_else-none : (o : Option ExternalRef) → o ≡ or_else o none
or_else-none none = refl
or_else-none (some r) = refl

find_external-append :
    (c : String) (rs : List ExternalRef) (r : ExternalRef)
    → find_external c (rs ++ r ∷ [])
      ≡ or_else (find_external c rs) (if str_eq r.carrier c then some r else none)
unfolding find_external
find_external-append c [] r = ground arith
find_external-append c (s ∷ rs) r = ground (arith, find_external-append c rs r)

-- A number that is attached is found, or an earlier one of its carrier is.
find_external_of_is_attached :
    (c x : String) (rs : List ExternalRef)
    → is_attached c x rs ≡ true
    → (r : ExternalRef) × (find_external c rs ≡ some r)
unfolding is_attached find_external
find_external_of_is_attached c x [] h = cc
find_external_of_is_attached c x (s ∷ rs) h = elim (Bool-cases (str_eq s.carrier c)) [
  | inl e ↦ (s, rw e)
  | inr e ↦ let (r, k) = find_external_of_is_attached c x rs (ground arith) in (r, rw e k)
]

-- After `AttachExternal`, `FindExternal` still returns what it found for a carrier; where it found
-- nothing, it returns the new number if that is the carrier's, and nothing otherwise.
pub find_external-attach_external :
    (carrier c x : String) (role : Role) (now : Time) (a : Awb)
    → find_external carrier (attach_external c x role now a).external_awbs
      ≡ or_else
          (find_external carrier a.external_awbs)
          (if str_eq c carrier then some (record { carrier = c; awb = x; role = role }) else none)
unfolding attach_external
find_external-attach_external carrier c x role now a =
    let r : ExternalRef = record { carrier = c; awb = x; role = role } in
    elim (Bool-cases (is_attached c x a.external_awbs)) [
      | inl e ↦
          let (s, k) = find_external_of_is_attached c x a.external_awbs e in
          rw e (elim (Bool-cases (str_eq c carrier)) [
            | inl f ↦ rw f (rw (← (eq_iff c carrier).0 f, k))
            | inr f ↦ rw f (or_else-none (find_external carrier a.external_awbs))
          ])
      | inr e ↦ rw e (find_external-append carrier a.external_awbs r)
    ]
