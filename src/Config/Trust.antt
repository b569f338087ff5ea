-- ===== src/Config/Trust.antt =====
-- The allow list of src/config.rs.
use anml_client_rust.Common.{
  ℕ, true, Option, none, some, List, [], ◌∷◌, ◌≡◌, refl, ◌⊎◌, inl, inr, ◌↔◌, Member, text_eq_iff,
  Bool-cases, arith, ◌||◌,
}
use anml_client_rust.Config.{
  Origin, allow, port_eq, origin_eq, contains_origin, allow_origin, allow_list,
}

port_eq_iff : (p q : Option ℕ) → (port_eq p q ≡ true) ↔ (p ≡ q)
port_eq_iff none none = ground arith
port_eq_iff none (some q) = ground arith
port_eq_iff (some p) none = ground arith
port_eq_iff (some p) (some q) = ground arith

pub origin_eq_iff : (a b : Origin) → (origin_eq a b ≡ true) ↔ (a ≡ b)
origin_eq_iff a b =
    ground
      (arith, text_eq_iff a.scheme b.scheme, text_eq_iff a.host b.host, port_eq_iff a.port b.port)

contains_origin_iff :
    (allowed : List Origin) (o : Origin) → (contains_origin allowed o ≡ true) ↔ Member o allowed
unfolding contains_origin
contains_origin_iff [] o = ground arith
contains_origin_iff (a ∷ allowed) o =
    ground (arith, origin_eq_iff a o, contains_origin_iff allowed o)

contains_origin-allow_origin :
    (allowed : List Origin) (o p : Origin)
    → contains_origin (allow_origin allowed o) p ≡ (origin_eq o p || contains_origin allowed p)
unfolding allow_origin
contains_origin-allow_origin allowed o p = elim (Bool-cases (contains_origin allowed o)) [
  | inl old ↦ elim (Bool-cases (origin_eq o p)) [
    | inl same ↦ rw (old, same) (rw ((origin_eq_iff o p).0 same) at old)
    | inr other ↦ rw (old, other)
  ]
  | inr new ↦ rw new (unfold contains_origin in refl)
]

-- The allow list admits exactly the origins that are on it, and those whose scheme and host are on
-- it without a port. Adding an origin admits that origin and keeps every origin that was admitted.
allow_list_iff :
    (allowed : List Origin) (o : Origin)
    → ((allow_list allowed o ≡ allow)
        ↔ (Member o allowed ⊎ Member (record o { port = none }) allowed))
      × (allow_list (allow_origin allowed o) o ≡ allow)
      × ((p : Origin)
          → allow_list allowed p ≡ allow
          → allow_list (allow_origin allowed o) p ≡ allow)
unfolding allow_list
allow_list_iff allowed o = (
  ground (
    arith,
    contains_origin_iff allowed o,
    contains_origin_iff allowed (record o { port = none }),
  ),
  ground (arith, contains_origin-allow_origin allowed o o, origin_eq_iff o o),
  λ p h. ground (
    arith,
    contains_origin-allow_origin allowed o p,
    contains_origin-allow_origin allowed o (record p { port = none }),
  ),
)
