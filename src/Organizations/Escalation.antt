-- ===== src/Organizations/Escalation.antt =====
-- What api/src/organizations/permissions.ts guarantees: a form of an older client neither grants nor
-- takes what it does not show, and the test against escalation is that of inclusion.
use royalvibe_cosmetic.Common.{
  ℕ, ◌≡◌, refl, sym, ap, ◌∙◌, ◌↔◌, Bool, true, false, ◌&&◌, ◌||◌, not, List, [], ◌∷◌, ◌++◌, filter,
  any-append, any-filter, all, ◌==◌, if◌then◌else◌, arith, Bool-cases, inl, inr,
}
use royalvibe_cosmetic.Organizations.Permissions.{
  OrganizationRole, number_of, catalog_manage, products_manage, stock_adjust, sales_record,
  sales_view_own, sales_view_all, products_view_stock_details, products_view_financials,
  analytics_read, audit_read, trash_manage, branding_manage, members_invite, members_manage,
  support_contact, sales_notifications, DelegablePermission, same, has, permission_catalog,
  merge_unknown_permissions, effective_permissions, has_permission, is_permission_subset,
  default_permissions_by_role, standard_member_permissions,
}

permission_at : ℕ → DelegablePermission
permission_at n =
    if n == 0
    then catalog_manage
    else if n == 1
    then products_manage
    else if n == 2
    then stock_adjust
    else if n == 3
    then sales_record
    else if n == 4
    then sales_view_own
    else if n == 5
    then sales_view_all
    else if n == 6
    then products_view_stock_details
    else if n == 7
    then products_view_financials
    else if n == 8
    then analytics_read
    else if n == 9
    then audit_read
    else if n == 10
    then trash_manage
    else if n == 11
    then branding_manage
    else if n == 12
    then members_invite
    else if n == 13
    then members_manage
    else if n == 14
    then support_contact
    else sales_notifications

permission_at-number_of : (p : DelegablePermission) → permission_at (number_of p) ≡ p
unfolding permission_at number_of
permission_at-number_of catalog_manage = refl
permission_at-number_of products_manage = refl
permission_at-number_of stock_adjust = refl
permission_at-number_of sales_record = refl
permission_at-number_of sales_view_own = refl
permission_at-number_of sales_view_all = refl
permission_at-number_of products_view_stock_details = refl
permission_at-number_of products_view_financials = refl
permission_at-number_of analytics_read = refl
permission_at-number_of audit_read = refl
permission_at-number_of trash_manage = refl
permission_at-number_of branding_manage = refl
permission_at-number_of members_invite = refl
permission_at-number_of members_manage = refl
permission_at-number_of support_contact = refl
permission_at-number_of sales_notifications = refl

same_sound : (p q : DelegablePermission) → same p q ≡ true → p ≡ q
unfolding same
same_sound p q h =
    let numbers : number_of p ≡ number_of q = ground arith in
    sym (permission_at-number_of p) ∙ ap permission_at numbers ∙ permission_at-number_of q

same_refl : (p : DelegablePermission) → same p p ≡ true
unfolding same
same_refl p = ground arith

and_left : (a b : Bool) → (a && b) ≡ true → a ≡ true
and_left a b h = ground arith

and_right : (a b : Bool) → (a && b) ≡ true → b ≡ true
and_right a b h = ground arith

and_both : (a b : Bool) → a ≡ true → b ≡ true → (a && b) ≡ true
and_both a b h k = ground arith

or_false : (a b : Bool) → a ≡ false → (a || b) ≡ b
or_false a b h = ground arith

or_true : (a b : Bool) → a ≡ true → (a || b) ≡ true
or_true a b h = ground arith

or_right : (a b : Bool) → b ≡ true → (a || b) ≡ true
or_right a b h = ground arith

or_absorbs : (r s k : Bool) → (r || (s && (not k && not r))) ≡ (r || (s && not k))
or_absorbs r s k = ground arith

included :
    (subset superset : List DelegablePermission)
    → all (has superset) subset ≡ true
    → (p : DelegablePermission) → has subset p ≡ true
    → has superset p ≡ true
included [] superset h p there = absurd (ground arith)
included (q ∷ subset) superset h p there = elim (Bool-cases (same q p)) [
  | inl here ↦ sym (ap (has superset) (same_sound q p here)) ∙ and_left (has superset q) _ h
  | inr away ↦
      included subset superset (and_right (has superset q) _ h) p
        (sym (or_false (same q p) (has subset p) away) ∙ there)
]

includes :
    (subset superset : List DelegablePermission)
    → ((p : DelegablePermission) → has subset p ≡ true → has superset p ≡ true)
    → all (has superset) subset ≡ true
includes [] superset h = refl
includes (q ∷ subset) superset h =
    and_both (has superset q) (all (has superset) subset)
      (h q (or_true (same q q) (has subset q) (same_refl q)))
      (includes subset superset (λ p there. h p (or_right (same q p) (has subset p) there)))

-- After a form of any catalogue was saved, a member has exactly what the form asked for, and of what
-- the member had before, exactly what the form does not know: nothing is granted or taken unseen.
pub merge_unknown_permissions-has :
    (requested stored : List DelegablePermission) (catalog : ℕ) (p : DelegablePermission)
    → has (merge_unknown_permissions requested stored catalog) p
      ≡ (has requested p || (has stored p && not (has (permission_catalog catalog) p)))
unfolding merge_unknown_permissions
merge_unknown_permissions-has requested stored catalog p =
    let known = permission_catalog catalog in
    let keep = (λ (q : DelegablePermission). not (has known q) && not (has requested q)) in
    let alike : (q : DelegablePermission) → same q p ≡ true → keep q ≡ keep p =
      λ q h. ap keep (same_sound q p h) in
    any-append (λ q. same q p) requested (filter keep stored)
    ∙ ap (λ b. has requested p || b) (any-filter (λ q. same q p) keep (keep p) stored alike)
    ∙ or_absorbs (has requested p) (has stored p) (has known p)

-- The test against escalation holds exactly when every permission of the one list is in the other.
pub is_permission_subset_iff :
    (subset superset : List DelegablePermission)
    → (is_permission_subset subset superset ≡ true)
      ↔ ((p : DelegablePermission) → has subset p ≡ true → has superset p ≡ true)
unfolding is_permission_subset
is_permission_subset_iff subset superset = (included subset superset, includes subset superset)

-- Every role has the rights of every member, and what was granted to the member besides.
pub has_permission-grants :
    (role : OrganizationRole) (permissions : List DelegablePermission) (p : DelegablePermission)
    → has_permission role permissions p ≡ (
        has standard_member_permissions p
        || (has (default_permissions_by_role role) p || has permissions p))
unfolding has_permission effective_permissions
has_permission-grants role permissions p =
    any-append (λ q. same q p) standard_member_permissions
      (default_permissions_by_role role ++ permissions)
    ∙ ap (λ b. has standard_member_permissions p || b)
        (any-append (λ q. same q p) (default_permissions_by_role role) permissions)
