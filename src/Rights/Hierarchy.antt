-- ===== src/Rights/Hierarchy.antt =====
-- The usages that the rights of src/rights.rs permit.
use anml_client_rust.Common.{◌≤◌, true, List, [], ◌∷◌, ◌≡◌, ◌⊎◌, ◌↔◌, arith}
use anml_client_rust.Document.{AnmlDocument, AnmlRights, UsageType}
use anml_client_rust.Rights.{
  rank, rights, max_usage_from, max_usage, max_usage_level, usage_permitted,
}

-- Some right declares the usage or a higher one.
abbrev pub Granted : UsageType → List AnmlRights → Type 0
Granted u [] = ⊥
Granted u (r ∷ rs) = (rank u ≤ rank r.usage) ⊎ Granted u rs

max_usage_from_iff :
    (u best : UsageType) (rs : List AnmlRights)
    → (rank u ≤ rank (max_usage_from best rs)) ↔ ((rank u ≤ rank best) ⊎ Granted u rs)
unfolding max_usage_from
max_usage_from_iff u best [] = ground arith
max_usage_from_iff u best (r ∷ rs) =
    ground (arith, max_usage_from_iff u r.usage rs, max_usage_from_iff u best rs)

-- A document's greatest usage level permits a usage exactly when the usage is `none` or one of the
-- document's rights declares it or a higher one.
pub usage_permitted_iff :
    (doc : AnmlDocument) (u : UsageType)
    → (usage_permitted u (max_usage_level doc) ≡ true) ↔ ((rank u ≡ 0) ⊎ Granted u (rights doc))
unfolding usage_permitted max_usage
usage_permitted_iff doc u = by_rights (rights doc)
  where
    by_rights :
        (rs : List AnmlRights)
        → (usage_permitted u (max_usage rs) ≡ true) ↔ ((rank u ≡ 0) ⊎ Granted u rs)
    by_rights [] = ground arith
    by_rights (r ∷ rs) = ground (arith, max_usage_from_iff u r.usage rs)
