-- ===== src/Organizations/Tests.antt =====
-- Runs of the permissions of api/src/organizations, and each theorem at a concrete input.
use royalvibe_cosmetic.Common.{◌≡◌, ◌↔◌, refl, true, ◌&&◌, ◌||◌, not, [], ◌∷◌}
use royalvibe_cosmetic.Organizations.Permissions.{
  DelegablePermission, catalog_manage, sales_record, sales_notifications, number_of, same, has,
  permission_catalog, merge_unknown_permissions, is_permission_subset,
}
use royalvibe_cosmetic.Organizations.Escalation.{
  merge_unknown_permissions-has, is_permission_subset_iff,
}

-- A form of the first catalogue takes the catalogue and keeps the notifications.
merges :
    merge_unknown_permissions [] (catalog_manage ∷ sales_notifications ∷ []) 1
    ≡ sales_notifications ∷ []
unfolding merge_unknown_permissions permission_catalog same number_of
merges = refl

merge_unknown_permissions-has_example :
    has (merge_unknown_permissions [] (sales_notifications ∷ []) 1) sales_notifications ≡ (
      has [] sales_notifications
      || (has (sales_notifications ∷ []) sales_notifications
          && not (has (permission_catalog 1) sales_notifications)))
merge_unknown_permissions-has_example =
    merge_unknown_permissions-has [] (sales_notifications ∷ []) 1 sales_notifications

is_permission_subset_iff_example :
    (is_permission_subset (sales_record ∷ []) (catalog_manage ∷ []) ≡ true) ↔ (
      (p : DelegablePermission)
      → has (sales_record ∷ []) p ≡ true
      → has (catalog_manage ∷ []) p ≡ true)
is_permission_subset_iff_example =
    is_permission_subset_iff (sales_record ∷ []) (catalog_manage ∷ [])
