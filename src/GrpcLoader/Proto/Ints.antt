-- ===== src/GrpcLoader/Proto/Ints.antt =====
-- Integer attributes of rules that came from the service.
use tools_jvm_autodeps.Base.{
  ◌≡◌, refl, subst, inl, inr, Bool, true, false, some, [], ◌∷◌, arith, Option-cases, ℤ, Text,
  nat_eq, text_eq,
}
use tools_jvm_autodeps.GoMap.{GoMap, lookup, put}
use tools_jvm_autodeps.GoMap.Entries.{Every, Every-put, IsEntry-of_lookup}
use tools_jvm_autodeps.Bazel.{Attr, str, int, int32, bool, strs, Rule, Package, int_attr}
use tools_jvm_autodeps.GrpcLoader.Proto.{
  ProtoAttr, attribute_s, attribute_i, attribute_b, list_of_strings, not_set, ProtoRule, ProtoPkg,
  put_attr, deserialize_attrs, rule_of, deserialize_rules, deserialize_pkg, deserialize_pkgs,
  deserialize_proto,
}

-- an attribute that is not of the type `int`
abbrev is_int : Attr → Bool
is_int (int x) = true
is_int _ = false

abbrev NoInts : GoMap Text Attr → Type 0
NoInts attrs = Every (λ n a. is_int a ≡ false) attrs

put_attr-NoInts :
    (n : Text) (a : ProtoAttr) (attrs : GoMap Text Attr)
    → NoInts attrs
    → NoInts (put_attr n a attrs)
put_attr-NoInts n (attribute_s x) attrs h =
    Every-put (λ n a. is_int a ≡ false) n (str x) attrs refl h
put_attr-NoInts n (attribute_i x) attrs h =
    Every-put (λ n a. is_int a ≡ false) n (int32 x) attrs refl h
put_attr-NoInts n (attribute_b x) attrs h =
    Every-put (λ n a. is_int a ≡ false) n (bool x) attrs refl h
put_attr-NoInts n (list_of_strings x) attrs h =
    Every-put (λ n a. is_int a ≡ false) n (strs x) attrs refl h
put_attr-NoInts n ProtoAttr.unknown attrs h =
    Every-put (λ n a. is_int a ≡ false) n Attr.unknown attrs refl h
put_attr-NoInts n not_set attrs h = h

deserialize_attrs-NoInts :
    (attrs : GoMap Text Attr) (more : GoMap Text ProtoAttr)
    → NoInts attrs
    → NoInts (deserialize_attrs attrs more)
unfolding deserialize_attrs
deserialize_attrs-NoInts attrs [] h = h
deserialize_attrs-NoInts attrs ((n, a) ∷ more) h =
    deserialize_attrs-NoInts (put_attr n a attrs) more (put_attr-NoInts n a attrs h)

abbrev NoIntRules : GoMap Text Rule → Type 0
NoIntRules rules = Every (λ n r. NoInts r.attrs) rules

deserialize_rules-NoInts :
    (pkg_name : Text) (rules : GoMap Text Rule) (more : GoMap Text ProtoRule)
    (out : GoMap Text Rule)
    → NoIntRules rules
    → deserialize_rules pkg_name rules more ≡ some out
    → NoIntRules out
unfolding deserialize_rules
deserialize_rules-NoInts pkg_name rules [] out h e = subst NoIntRules (ground arith) h
deserialize_rules-NoInts pkg_name rules ((n, r) ∷ more) out h e = elim (Option-cases r.kind) [
  | inl no_kind ↦ ground arith
  | inr (k, kind) ↦
      deserialize_rules-NoInts pkg_name (put n (rule_of pkg_name r.attributes k) rules) more out
        (Every-put (λ n r. NoInts r.attrs) n (rule_of pkg_name r.attributes k) rules
          (deserialize_attrs-NoInts [] r.attributes (λ n a i. cc)) h)
        (ground arith)
]

deserialize_pkg-NoInts :
    (n : Text) (p : ProtoPkg) (pkg : Package Rule)
    → deserialize_pkg n p ≡ some pkg
    → NoIntRules pkg.rules
unfolding deserialize_pkg
deserialize_pkg-NoInts n p pkg e = elim (Option-cases (deserialize_rules n [] p.rules)) [
  | inl panics ↦ ground arith
  | inr (rules, f) ↦ elim (Option-cases p.path) [
    | inl no_path ↦ ground arith
    | inr (path, g) ↦
        let same : rules ≡ pkg.rules = ground arith in
        subst NoIntRules same (deserialize_rules-NoInts n [] p.rules rules (λ n r i. cc) f)
  ]
]

abbrev NoIntPkgs : GoMap Text (Package Rule) → Type 0
NoIntPkgs pkgs = Every (λ n p. NoIntRules p.rules) pkgs

deserialize_pkgs-NoInts :
    (result : GoMap Text (Package Rule)) (more : GoMap Text ProtoPkg)
    (out : GoMap Text (Package Rule))
    → NoIntPkgs result
    → deserialize_pkgs result more ≡ some out
    → NoIntPkgs out
unfolding deserialize_pkgs
deserialize_pkgs-NoInts result [] out h e = subst NoIntPkgs (ground arith) h
deserialize_pkgs-NoInts result ((n, p) ∷ more) out h e = elim (Option-cases (deserialize_pkg n p)) [
  | inl panics ↦ ground arith
  | inr (pkg, f) ↦
      deserialize_pkgs-NoInts (put n pkg result) more out
        (Every-put (λ n p. NoIntRules p.rules) n pkg result (deserialize_pkg-NoInts n p pkg f) h)
        (ground arith)
]

int_attr-default :
    (r : Rule) (attr_name : Text) (default : ℤ)
    → NoInts r.attrs
    → int_attr r attr_name default ≡ default
unfolding int_attr
int_attr-default r attr_name default h = elim (Option-cases (lookup attr_name r.attrs)) [
  | inl n ↦ ground arith
  | inr (a, e) ↦ ground (arith, h attr_name a (IsEntry-of_lookup attr_name a r.attrs e))
]

-- For every rule that DeserializeProto returns, IntAttr returns its default, whatever integer
-- attributes the rule has.
pub int_attr-deserialize_proto :
    (proto : GoMap Text ProtoPkg) (out : GoMap Text (Package Rule)) (pkg_name : Text)
    (pkg : Package Rule) (n : Text) (r : Rule)
    → deserialize_proto proto ≡ some out
    → lookup pkg_name out ≡ some pkg
    → lookup n pkg.rules ≡ some r
    → (attr_name : Text) (default : ℤ) → int_attr r attr_name default ≡ default
unfolding deserialize_proto
int_attr-deserialize_proto proto out pkg_name pkg n r e f g attr_name default =
    int_attr-default r attr_name default (
      deserialize_pkgs-NoInts [] proto out (λ n p i. cc) e pkg_name pkg
        (IsEntry-of_lookup pkg_name pkg out f) n r (IsEntry-of_lookup n r pkg.rules g))
