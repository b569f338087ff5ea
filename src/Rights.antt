-- ===== src/Rights.antt =====
-- src/rights.rs: the rights that a document grants, and the confidentiality of what it informs of.
pub mod Hierarchy
use anml_client_rust.Common.{
  ℕ, Bool, false, Option, none, some, List, [], ◌∷◌, ◌==◌, leb, if◌then◌else◌, Text,
}
use anml_client_rust.Document.{
  AnmlDocument, AnmlFooter, AnmlRights, AnmlAttribution, UsageType, display, cache, store, train,
  ConfidentialityLevel, public, restricted, private,
}

-- The order of the variants.
abbrev pub rank : UsageType → ℕ
rank UsageType.none = 0
rank display = 1
rank cache = 2
rank store = 3
rank train = 4

abbrev pub or_no_rights : Option (List AnmlRights) → List AnmlRights
or_no_rights none = []
or_no_rights (some rs) = rs

abbrev pub rights : AnmlDocument → List AnmlRights
rights doc = elim doc.footer [ none ↦ [] | some f ↦ or_no_rights f.rights ]

-- `max`, which keeps the last of the greatest.
unfoldable pub max_usage_from : UsageType → List AnmlRights → UsageType
max_usage_from best [] = best
max_usage_from best (r ∷ rs) =
    if leb (rank best) (rank r.usage) then max_usage_from r.usage rs else max_usage_from best rs

unfoldable pub max_usage : List AnmlRights → UsageType
unfolding max_usage_from
max_usage [] = UsageType.none
max_usage (r ∷ rs) = max_usage_from r.usage rs

abbrev pub max_usage_level : AnmlDocument → UsageType
max_usage_level doc = max_usage (rights doc)

unfoldable pub usage_permitted : UsageType → UsageType → Bool
usage_permitted requested declared = leb (rank requested) (rank declared)

abbrev pub level_rank : ConfidentialityLevel → ℕ
level_rank public = 0
level_rank restricted = 1
level_rank private = 2

-- `confidentiality_level`, `is_private`, `is_restricted` and `is_public` of an `inform` element's
-- attribute.
abbrev pub confidentiality_level : Option ConfidentialityLevel → ConfidentialityLevel
confidentiality_level none = public
confidentiality_level (some l) = l

abbrev pub is_private : Option ConfidentialityLevel → Bool
is_private l = level_rank (confidentiality_level l) == 2

abbrev pub is_restricted : Option ConfidentialityLevel → Bool
is_restricted l = level_rank (confidentiality_level l) == 1

abbrev pub is_public : Option ConfidentialityLevel → Bool
is_public l = level_rank (confidentiality_level l) == 0

-- `RightsAccessors`
abbrev pub holder_name : AnmlRights → Text
holder_name r = r.holder

abbrev pub copyright_year : AnmlRights → Option Text
copyright_year r = r.year

abbrev pub license_id : AnmlRights → Option Text
license_id r = r.license

abbrev pub usage_level : AnmlRights → UsageType
usage_level r = r.usage

abbrev pub rights_scope : AnmlRights → Option Text
rights_scope r = r.scope

-- `AttributionAccessors`
abbrev pub is_required : AnmlAttribution → Bool
is_required a = elim a.required [ none ↦ false | some r ↦ r ]

abbrev pub attribution_scope : AnmlAttribution → Option Text
attribution_scope a = a.scope

abbrev pub attribution_text : AnmlAttribution → Option Text
attribution_text a = a.text

abbrev pub footer_ref : AnmlDocument → Option AnmlFooter
footer_ref doc = doc.footer

abbrev pub or_no_attributions : Option (List AnmlAttribution) → List AnmlAttribution
or_no_attributions none = []
or_no_attributions (some attributions) = attributions

abbrev pub attributions : AnmlDocument → List AnmlAttribution
attributions doc = elim doc.footer [ none ↦ [] | some f ↦ or_no_attributions f.attributions ]
