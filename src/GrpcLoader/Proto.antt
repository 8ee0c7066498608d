-- ===== src/GrpcLoader/Proto.antt =====
-- DeserializeProto: the answer of the service, as its messages describe it, becomes packages.
--
-- The messages are those of messages.proto and services.proto. An optional field that is not set is
-- `none`; reading it through its pointer panics. A message may hold a `oneof` with no value.
pub mod RoundTrip
pub mod Ints
use mathlib.Core.Option
use tools_jvm_autodeps.Base.{Bool, Option, none, some, List, [], ◌∷◌, map, ℤ, Text, nat_eq, text_eq}
use tools_jvm_autodeps.GoMap.{GoMap, put}
use tools_jvm_autodeps.Bazel.{Label, Attr, str, int, int32, bool, strs, Rule, PackageGroup, Package}

pub data ProtoAttr : Type 0 where
  attribute_s : Text → ProtoAttr
  attribute_i : ℤ → ProtoAttr
  attribute_b : Bool → ProtoAttr
  list_of_strings : List Text → ProtoAttr
  unknown : ProtoAttr
  not_set : ProtoAttr

pub record ProtoRule : Type 0 where
  pub kind : Option Text
  pub attributes : GoMap Text ProtoAttr

pub record ProtoGroup : Type 0 where
  pub package_specs : List Text
  pub includes : List Text

pub record ProtoPkg : Type 0 where
  pub path : Option Text
  pub default_visibility : List Text
  pub files : GoMap Text Text
  pub rules : GoMap Text ProtoRule
  pub package_groups : GoMap Text ProtoGroup

-- the type switch on the value of an attribute
abbrev pub put_attr : Text → ProtoAttr → GoMap Text Attr → GoMap Text Attr
put_attr n (attribute_s x) attrs = put n (str x) attrs
put_attr n (attribute_i x) attrs = put n (int32 x) attrs
put_attr n (attribute_b x) attrs = put n (bool x) attrs
put_attr n (list_of_strings x) attrs = put n (strs x) attrs
put_attr n ProtoAttr.unknown attrs = put n Attr.unknown attrs
put_attr n not_set attrs = attrs

pub deserialize_attrs : GoMap Text Attr → GoMap Text ProtoAttr → GoMap Text Attr
deserialize_attrs attrs [] = attrs
deserialize_attrs attrs ((n, a) ∷ more) = deserialize_attrs (put_attr n a attrs) more

abbrev pub rule_of : Text → GoMap Text ProtoAttr → Text → Rule
rule_of pkg_name attributes kind = record {
  schema = kind;
  pkg_name = pkg_name;
  attrs = deserialize_attrs [] attributes;
}

-- `none` is a panic.
pub deserialize_rules : Text → GoMap Text Rule → GoMap Text ProtoRule → Option (GoMap Text Rule)
deserialize_rules pkg_name rules [] = some rules
deserialize_rules pkg_name rules ((n, r) ∷ more) = elim r.kind [
  | none ↦ none
  | some k ↦ deserialize_rules pkg_name (put n (rule_of pkg_name r.attributes k) rules) more
]

pub deserialize_groups : GoMap Text PackageGroup → GoMap Text ProtoGroup → GoMap Text PackageGroup
deserialize_groups groups [] = groups
deserialize_groups groups ((n, g) ∷ more) =
    deserialize_groups (put n (record { specs = g.package_specs; includes = g.includes }) groups)
      more

-- one package; the path is read after the rules
pub deserialize_pkg : Text → ProtoPkg → Option (Package Rule)
deserialize_pkg pkg_name p = elim (deserialize_rules pkg_name [] p.rules) [
  | none ↦ none
  | some rules ↦
      Option.map
        (λ path. record {
          path = path;
          default_visibility = p.default_visibility;
          files = p.files;
          rules = rules;
          package_groups = deserialize_groups [] p.package_groups;
        })
        p.path
]

pub deserialize_pkgs :
    GoMap Text (Package Rule) → GoMap Text ProtoPkg → Option (GoMap Text (Package Rule))
deserialize_pkgs result [] = some result
deserialize_pkgs result ((n, p) ∷ more) = elim (deserialize_pkg n p) [
  | none ↦ none
  | some pkg ↦ deserialize_pkgs (put n pkg result) more
]

-- DeserializeProto
pub deserialize_proto : GoMap Text ProtoPkg → Option (GoMap Text (Package Rule))
unfolding deserialize_pkgs
deserialize_proto = deserialize_pkgs []
