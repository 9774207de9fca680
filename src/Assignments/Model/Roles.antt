-- ===== src/Assignments/Model/Roles.antt =====
-- The test of two roles for equality.
use heritage_philippines_v.Prelude.{ℕ, true, ◌≡◌, refl, sym, ap, ◌∙◌, ◌==◌, ==→eq, if◌then◌else◌}
use heritage_philippines_v.Payments.Model.{Role}
use heritage_philippines_v.Assignments.Model.{role_index, role_eq}

abbrev of_index : ℕ → Role
of_index i =
    if i == 0
    then Role.system_administrator
    else if i == 1
    then Role.admin_manager
    else if i == 2
    then Role.travel_consultant
    else if i == 3
    then Role.finance_accounting
    else if i == 4
    then Role.visa_documentation
    else Role.client

of_index-role_index : (r : Role) → of_index (role_index r) ≡ r
of_index-role_index Role.system_administrator = refl
of_index-role_index Role.admin_manager = refl
of_index-role_index Role.travel_consultant = refl
of_index-role_index Role.finance_accounting = refl
of_index-role_index Role.visa_documentation = refl
of_index-role_index Role.client = refl

pub role_eq→eq : (a b : Role) → role_eq a b ≡ true → a ≡ b
role_eq→eq a b h =
    sym (of_index-role_index a)
    ∙ ap of_index (==→eq (role_index a) (role_index b) h)
    ∙ of_index-role_index b
