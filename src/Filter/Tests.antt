-- ===== src/Filter/Tests.antt =====
-- Runs of subPackageOf.
use tools_jvm_autodeps.Base.{◌≡◌, refl, true, false, nat_eq, text_eq, ◌↔◌}
use tools_jvm_autodeps.Strings.{codes}
use tools_jvm_autodeps.Filter.{sub_package_of}
use tools_jvm_autodeps.Filter.SubPackage.{SubPackage, sub_package_of_iff}
use tools_jvm_autodeps.Filter.Search.{vis_query_eq}

sub_package_of_runs :
    (sub_package_of (codes "a/b") (codes "a") ≡ true)
    × (sub_package_of (codes "a") (codes "a/b") ≡ false)
    × (sub_package_of (codes "ab") (codes "a") ≡ false)
unfolding sub_package_of
sub_package_of_runs = (refl, refl, refl)

sub_package_of_iff_example :
    (sub_package_of (codes "a/b") (codes "a") ≡ true) ↔ SubPackage (codes "a/b") (codes "a")
sub_package_of_iff_example = sub_package_of_iff (codes "a/b") (codes "a")
