-- ===== src/GrpcLoader/Proto/RoundTrip.antt =====
-- Packages survive the way through the messages.
use tools_jvm_autodeps.Base.{
  ◌≡◌, refl, sym, ap, ◌∙◌, subst, Bool, true, false, some, [], ◌∷◌, ◌++◌, append-nil, append_assoc,
  arith, Text, nat_eq, text_eq,
}
use tools_jvm_autodeps.GoMap.{GoMap, put, IsMap}
use tools_jvm_autodeps.GoMap.Entries.{put-fresh, fresh-middle}
use tools_jvm_autodeps.Bazel.{Attr, str, int, int32, bool, strs, Rule, PackageGroup, Package}
use tools_jvm_autodeps.GrpcLoader.Proto.{
  ProtoAttr, attribute_s, attribute_i, attribute_b, list_of_strings, not_set, ProtoRule, ProtoGroup,
  ProtoPkg, put_attr, deserialize_attrs, rule_of, deserialize_rules, deserialize_groups,
  deserialize_pkg, deserialize_pkgs, deserialize_proto,
}

-- The messages for packages, as the service describes them. It has no `int`.
abbrev pub serialize_attr : Attr → ProtoAttr
serialize_attr (str x) = attribute_s x
serialize_attr (int x) = not_set
serialize_attr (int32 x) = attribute_i x
serialize_attr (bool x) = attribute_b x
serialize_attr (strs x) = list_of_strings x
serialize_attr Attr.unknown = ProtoAttr.unknown

abbrev pub serialize_attrs : GoMap Text Attr → GoMap Text ProtoAttr
serialize_attrs [] = []
serialize_attrs ((n, a) ∷ attrs) = (n, serialize_attr a) ∷ serialize_attrs attrs

abbrev pub serialize_rules : GoMap Text Rule → GoMap Text ProtoRule
serialize_rules [] = []
serialize_rules ((n, r) ∷ rules) =
    (n, record { kind = some r.schema; attributes = serialize_attrs r.attrs })
    ∷ serialize_rules rules

abbrev pub serialize_groups : GoMap Text PackageGroup → GoMap Text ProtoGroup
serialize_groups [] = []
serialize_groups ((n, g) ∷ groups) =
    (n, record { package_specs = g.specs; includes = g.includes }) ∷ serialize_groups groups

abbrev pub serialize_pkg : Package Rule → ProtoPkg
serialize_pkg p = record {
  path = some p.path;
  default_visibility = p.default_visibility;
  files = p.files;
  rules = serialize_rules p.rules;
  package_groups = serialize_groups p.package_groups;
}

abbrev pub serialize_pkgs : GoMap Text (Package Rule) → GoMap Text ProtoPkg
serialize_pkgs [] = []
serialize_pkgs ((n, p) ∷ pkgs) = (n, serialize_pkg p) ∷ serialize_pkgs pkgs

-- What a package loader knows: maps, attributes that are no `int`, and rules of their package.
abbrev pub AreServedAttrs : GoMap Text Attr → Type 0
AreServedAttrs [] = Unit
AreServedAttrs ((n, int x) ∷ attrs) = ◌≡◌ {A = Bool} true false
AreServedAttrs ((n, a) ∷ attrs) = AreServedAttrs attrs

abbrev pub AreServedRules : Text → GoMap Text Rule → Type 0
AreServedRules pkg_name [] = Unit
AreServedRules pkg_name ((n, r) ∷ rules) =
    (r.pkg_name ≡ pkg_name)
    × (IsMap r.attrs × (AreServedAttrs r.attrs × AreServedRules pkg_name rules))

abbrev pub AreServed : GoMap Text (Package Rule) → Type 0
AreServed [] = Unit
AreServed ((n, p) ∷ pkgs) =
    IsMap p.rules × (AreServedRules n p.rules × (IsMap p.package_groups × AreServed pkgs))

module _ {V : Type 0} where
  -- A write of the next entry of a map.
  put-next :
      (m : GoMap Text V) (k : Text) (v : V) (rest : GoMap Text V)
      → IsMap (m ++ (k, v) ∷ rest)
      → put k v m ≡ m ++ (k, v) ∷ []
  put-next m k v rest h = put-fresh k v m (fresh-middle m k v rest h)

  IsMap-next :
      (m : GoMap Text V) (k : Text) (v : V) (rest : GoMap Text V)
      → IsMap (m ++ (k, v) ∷ rest)
      → IsMap ((m ++ (k, v) ∷ []) ++ rest)
  IsMap-next m k v rest h = subst IsMap (sym (append_assoc m ((k, v) ∷ []) rest)) h

put_attr-serialize_attr :
    (n : Text) (a : Attr) (attrs rest : GoMap Text Attr)
    → AreServedAttrs ((n, a) ∷ rest)
    → (put_attr n (serialize_attr a) attrs ≡ put n a attrs) × AreServedAttrs rest
put_attr-serialize_attr n (str x) attrs rest h = (refl, h)
put_attr-serialize_attr n (int x) attrs rest h = cc
put_attr-serialize_attr n (int32 x) attrs rest h = (refl, h)
put_attr-serialize_attr n (bool x) attrs rest h = (refl, h)
put_attr-serialize_attr n (strs x) attrs rest h = (refl, h)
put_attr-serialize_attr n Attr.unknown attrs rest h = (refl, h)

deserialize_attrs-serialize_attrs :
    (attrs more : GoMap Text Attr)
    → IsMap (attrs ++ more)
    → AreServedAttrs more
    → deserialize_attrs attrs (serialize_attrs more) ≡ attrs ++ more
unfolding deserialize_attrs
deserialize_attrs-serialize_attrs attrs [] h s = sym (append-nil attrs)
deserialize_attrs-serialize_attrs attrs ((n, a) ∷ more) h s =
    let (q, t) = put_attr-serialize_attr n a attrs more s in
    ap (λ m. deserialize_attrs m (serialize_attrs more)) (q ∙ put-next attrs n a more h)
    ∙ (deserialize_attrs-serialize_attrs (attrs ++ (n, a) ∷ []) more (IsMap-next attrs n a more h) t
        ∙ append_assoc attrs ((n, a) ∷ []) more)

deserialize_rules-serialize_rules :
    (pkg_name : Text) (rules more : GoMap Text Rule)
    → IsMap (rules ++ more)
    → AreServedRules pkg_name more
    → deserialize_rules pkg_name rules (serialize_rules more) ≡ some (rules ++ more)
unfolding deserialize_rules
deserialize_rules-serialize_rules pkg_name rules [] h s = ap some (sym (append-nil rules))
deserialize_rules-serialize_rules pkg_name rules ((n, r) ∷ more) h (own, (is_map, (served, s))) =
    let same : rule_of pkg_name (serialize_attrs r.attrs) r.schema ≡ r =
      rw (deserialize_attrs-serialize_attrs [] r.attrs is_map served)
        (ap (λ p. record { schema = r.schema; pkg_name = p; attrs = r.attrs }) (sym own)) in
    ap (λ x. deserialize_rules pkg_name (put n x rules) (serialize_rules more)) same
    ∙ (ap (λ m. deserialize_rules pkg_name m (serialize_rules more)) (put-next rules n r more h)
        ∙ deserialize_rules-serialize_rules pkg_name (rules ++ (n, r) ∷ []) more
            (IsMap-next rules n r more h) s
        ∙ ap some (append_assoc rules ((n, r) ∷ []) more))

deserialize_groups-serialize_groups :
    (groups more : GoMap Text PackageGroup)
    → IsMap (groups ++ more)
    → deserialize_groups groups (serialize_groups more) ≡ groups ++ more
unfolding deserialize_groups
deserialize_groups-serialize_groups groups [] h = sym (append-nil groups)
deserialize_groups-serialize_groups groups ((n, g) ∷ more) h =
    ap (λ m. deserialize_groups m (serialize_groups more)) (put-next groups n g more h)
    ∙ (deserialize_groups-serialize_groups (groups ++ (n, g) ∷ []) more
          (IsMap-next groups n g more h)
        ∙ append_assoc groups ((n, g) ∷ []) more)

deserialize_pkg-serialize_pkg :
    (n : Text) (p : Package Rule)
    → IsMap p.rules
    → AreServedRules n p.rules
    → IsMap p.package_groups
    → deserialize_pkg n (serialize_pkg p) ≡ some p
unfolding deserialize_pkg
deserialize_pkg-serialize_pkg n p r s g = ground (
  arith,
  deserialize_rules-serialize_rules n [] p.rules r s,
  deserialize_groups-serialize_groups [] p.package_groups g,
)

deserialize_pkgs-serialize_pkgs :
    (result more : GoMap Text (Package Rule))
    → IsMap (result ++ more)
    → AreServed more
    → deserialize_pkgs result (serialize_pkgs more) ≡ some (result ++ more)
unfolding deserialize_pkgs
deserialize_pkgs-serialize_pkgs result [] h s = ap some (sym (append-nil result))
deserialize_pkgs-serialize_pkgs result ((n, p) ∷ more) h (r, (s, (g, t))) =
    let one : deserialize_pkgs result (serialize_pkgs ((n, p) ∷ more))
        ≡ deserialize_pkgs (put n p result) (serialize_pkgs more) =
      ground (arith, deserialize_pkg-serialize_pkg n p r s g) in
    one
    ∙ (ap (λ m. deserialize_pkgs m (serialize_pkgs more)) (put-next result n p more h)
        ∙ (deserialize_pkgs-serialize_pkgs (result ++ (n, p) ∷ []) more
              (IsMap-next result n p more h) t
            ∙ ap some (append_assoc result ((n, p) ∷ []) more)))

-- DeserializeProto reads back the messages of any packages whose rules have no `int` attribute and
-- stand in their own package: their paths, visibilities, files, rules, attributes and package groups.
pub deserialize_proto-serialize :
    (pkgs : GoMap Text (Package Rule))
    → IsMap pkgs
    → AreServed pkgs
    → deserialize_proto (serialize_pkgs pkgs) ≡ some pkgs
unfolding deserialize_proto
deserialize_proto-serialize pkgs h s = deserialize_pkgs-serialize_pkgs [] pkgs h s
