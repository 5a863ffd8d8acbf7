-- ===== src/Permissions.antt =====
-- app/domain/permissions.py: which permissions a role grants, and which of them a supervisor may lend.
-- A role and a permission are texts; a set of them is a list.
pub mod Roles
use pos.Prelude.{Bool, List, [], ◌∷◌, ◌++◌, any, if◌then◌else◌, Text, text_eq, codes}

abbrev pub sale_create : Text
sale_create = codes "sale.create"

abbrev pub sale_discount_line : Text
sale_discount_line = codes "sale.discount.line"

abbrev pub sale_discount_unlimited : Text
sale_discount_unlimited = codes "sale.discount.unlimited"

abbrev pub sale_void : Text
sale_void = codes "sale.void"

abbrev pub sale_refund : Text
sale_refund = codes "sale.refund"

abbrev pub sale_review_resolve : Text
sale_review_resolve = codes "sale.review.resolve"

abbrev pub price_override : Text
price_override = codes "price.override"

abbrev pub product_read : Text
product_read = codes "product.read"

abbrev pub product_create : Text
product_create = codes "product.create"

abbrev pub product_edit : Text
product_edit = codes "product.edit"

abbrev pub stock_receive : Text
stock_receive = codes "stock.receive"

abbrev pub stock_count : Text
stock_count = codes "stock.count"

abbrev pub stock_adjust : Text
stock_adjust = codes "stock.adjust"

abbrev pub payment_attest : Text
payment_attest = codes "payment.attest"

abbrev pub cash_payout : Text
cash_payout = codes "cash.payout"

abbrev pub shift_close : Text
shift_close = codes "shift.close"

abbrev pub report_sales_store : Text
report_sales_store = codes "report.sales.store"

abbrev pub report_margin : Text
report_margin = codes "report.margin"

abbrev pub user_manage : Text
user_manage = codes "user.manage"

abbrev pub settings_manage : Text
settings_manage = codes "settings.manage"

abbrev pub cashier : Text
cashier = codes "cashier"

abbrev pub supervisor : Text
supervisor = codes "supervisor"

abbrev pub inventory : Text
inventory = codes "inventory"

abbrev pub manager : Text
manager = codes "manager"

abbrev pub admin : Text
admin = codes "admin"

-- The rows of the matrix.
abbrev pub cashier_permissions : List Text
cashier_permissions = sale_create ∷ product_read ∷ payment_attest ∷ []

abbrev pub supervisor_permissions : List Text
supervisor_permissions =
    sale_create ∷ sale_discount_line ∷ sale_void ∷ sale_refund ∷ sale_review_resolve
    ∷ price_override ∷ product_read ∷ payment_attest ∷ cash_payout ∷ shift_close
    ∷ report_sales_store ∷ []

abbrev pub inventory_permissions : List Text
inventory_permissions =
    product_read ∷ product_create ∷ product_edit ∷ stock_receive ∷ stock_count ∷ []

abbrev pub manager_permissions : List Text
manager_permissions =
    sale_create ∷ sale_discount_line ∷ sale_discount_unlimited ∷ sale_void ∷ sale_refund
    ∷ sale_review_resolve ∷ price_override ∷ product_read ∷ product_create ∷ product_edit
    ∷ stock_receive ∷ stock_count ∷ stock_adjust ∷ payment_attest ∷ cash_payout ∷ shift_close
    ∷ report_sales_store ∷ report_margin ∷ user_manage ∷ []

abbrev pub admin_permissions : List Text
admin_permissions =
    sale_create ∷ sale_discount_line ∷ sale_discount_unlimited ∷ sale_void ∷ sale_refund
    ∷ sale_review_resolve ∷ price_override ∷ product_read ∷ product_create ∷ product_edit
    ∷ stock_receive ∷ stock_count ∷ stock_adjust ∷ payment_attest ∷ cash_payout ∷ shift_close
    ∷ report_sales_store ∷ report_margin ∷ user_manage ∷ settings_manage ∷ []

-- `ROLE_PERMISSIONS.get(role, frozenset())`
unfoldable pub role_permissions : Text → List Text
role_permissions role =
    if text_eq role cashier
    then cashier_permissions
    else if text_eq role supervisor
    then supervisor_permissions
    else if text_eq role inventory
    then inventory_permissions
    else if text_eq role manager
    then manager_permissions
    else if text_eq role admin
    then admin_permissions
    else []

-- `OVERRIDABLE`
abbrev pub overridable : List Text
overridable =
    sale_discount_line ∷ sale_discount_unlimited ∷ price_override ∷ sale_void ∷ cash_payout ∷ []

-- `permission in permissions`
unfoldable pub has : List Text → Text → Bool
has permissions permission = any (text_eq permission) permissions

unfoldable pub is_overridable : Text → Bool
unfolding has
is_overridable permission = has overridable permission

unfoldable pub permissions_for : List Text → List Text
permissions_for [] = []
permissions_for (role ∷ roles) = role_permissions role ++ permissions_for roles
