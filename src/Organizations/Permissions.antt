-- ===== src/Organizations/Permissions.antt =====
-- The permissions of a member: api/src/organizations/permissions.ts.
use royalvibe_cosmetic.Common.{
  ℕ, Bool, ◌&&◌, ◌||◌, not, Option, none, some, List, [], ◌∷◌, ◌++◌, filter, any, all, ◌==◌,
  if◌then◌else◌,
}

pub data OrganizationRole : Type 0 where
  owner admin seller : OrganizationRole

pub data DelegablePermission : Type 0 where
  catalog_manage products_manage stock_adjust : DelegablePermission
  sales_record sales_view_own sales_view_all : DelegablePermission
  products_view_stock_details products_view_financials : DelegablePermission
  analytics_read audit_read trash_manage branding_manage : DelegablePermission
  members_invite members_manage support_contact sales_notifications : DelegablePermission

-- Texts are compared by `===`; here the constructors are numbered.
unfoldable pub number_of : DelegablePermission → ℕ
number_of catalog_manage = 0
number_of products_manage = 1
number_of stock_adjust = 2
number_of sales_record = 3
number_of sales_view_own = 4
number_of sales_view_all = 5
number_of products_view_stock_details = 6
number_of products_view_financials = 7
number_of analytics_read = 8
number_of audit_read = 9
number_of trash_manage = 10
number_of branding_manage = 11
number_of members_invite = 12
number_of members_manage = 13
number_of support_contact = 14
number_of sales_notifications = 15

unfoldable pub same : DelegablePermission → DelegablePermission → Bool
unfolding number_of
same p q = number_of p == number_of q

abbrev pub has : List DelegablePermission → DelegablePermission → Bool
has ps p = any (λ q. same q p) ps

abbrev pub delegable_permissions : List DelegablePermission
delegable_permissions =
    catalog_manage ∷ products_manage ∷ stock_adjust ∷ sales_record ∷ sales_view_own ∷ sales_view_all
    ∷ products_view_stock_details ∷ products_view_financials ∷ analytics_read ∷ audit_read
    ∷ trash_manage ∷ branding_manage ∷ members_invite ∷ members_manage ∷ support_contact
    ∷ sales_notifications ∷ []

-- `PERMISSION_CATALOGS[n] ?? PERMISSION_CATALOGS[1]`
unfoldable pub permission_catalog : ℕ → List DelegablePermission
permission_catalog n =
    if n == 2
    then delegable_permissions
    else filter (λ p. not (same p sales_notifications)) delegable_permissions

-- `parsePermissionCatalog`, on the number that the text denotes, if it denotes one.
unfoldable pub parse_permission_catalog : Option ℕ → ℕ
parse_permission_catalog none = 1
parse_permission_catalog (some n) = if n == 1 || n == 2 then n else 1

unfoldable pub merge_unknown_permissions :
    List DelegablePermission → List DelegablePermission → ℕ → List DelegablePermission
unfolding permission_catalog
merge_unknown_permissions requested stored catalog =
    let known = permission_catalog catalog in
    requested ++ filter (λ p. not (has known p) && not (has requested p)) stored

abbrev pub standard_member_permissions : List DelegablePermission
standard_member_permissions = sales_record ∷ sales_view_own ∷ []

unfoldable pub default_permissions_by_role : OrganizationRole → List DelegablePermission
default_permissions_by_role owner = delegable_permissions
default_permissions_by_role admin = delegable_permissions
default_permissions_by_role seller = sales_record ∷ sales_view_own ∷ []

-- A set is a list that is only asked for membership.
unfoldable pub effective_permissions :
    OrganizationRole → List DelegablePermission → List DelegablePermission
unfolding default_permissions_by_role
effective_permissions role permissions =
    standard_member_permissions ++ (default_permissions_by_role role ++ permissions)

unfoldable pub has_permission :
    OrganizationRole → List DelegablePermission → DelegablePermission → Bool
unfolding effective_permissions
has_permission role permissions p = has (effective_permissions role permissions) p

unfoldable pub is_permission_subset : List DelegablePermission → List DelegablePermission → Bool
is_permission_subset subset superset = all (has superset) subset
