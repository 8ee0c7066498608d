-- ===== src/Bazel.antt =====
-- bazel/bazel.go: labels, rules, packages and package groups.
--
-- A `*bazel.Rule` is a reference: maps are keyed by it and compare addresses. Where that matters a
-- module takes the type of references and what each points to as parameters; `Package` is over
-- that type. A `Rule` is what a reference points to, and no code writes to it once it is made.
pub mod Split
pub mod Absolute
pub mod Relative
pub mod Attrs
pub mod Tests
use mathlib.Core.Option
use tools_jvm_autodeps.Base.{
  ℕ, suc, Bool, true, false, ◌&&◌, ◌||◌, not, Option, none, some, List, [], ◌∷◌, ◌++◌, Text, ◌==◌,
  ltb, if◌then◌else◌, length, take, drop, text_eq, nat_eq, is_some, ℤ,
}
use tools_jvm_autodeps.GoMap.{GoMap, lookup, get, put}
use tools_jvm_autodeps.Strings.{
  codes, slash, colon, at_sign, has_prefix, trim_prefix, index_byte, index, count_slash_slash,
  trim_left_slash, after_last, base,
}

abbrev pub Label : Type 0
Label = Text

-- the errors of the two label parsers, in the order of the code
pub data LabelError : Type 0 where
  not_absolute invalid_label nested_slashes name_has_slashes name_has_colon : LabelError
  empty_label stray_colon : LabelError

pub data Parsed : Type 0 where
  ok : Label → Parsed
  err : LabelError → Parsed

abbrev pub slashes : Text
slashes = slash ∷ slash ∷ []

-- Label.Split, with the index of the first colon in `s`
unfoldable pub split_at : Text → Option ℕ → Text × Text
unfolding after_last
split_at s none = (s, after_last s slash)
split_at s (some i) = (take i s, drop (suc i) s)

unfoldable pub split : Label → Text × Text
unfolding trim_prefix index_byte split_at
split l = let s = trim_prefix l slashes in split_at s (index_byte s colon)

-- the prefix that a package name wants in a label: none in an external repository
unfoldable pub make_label : Text → Text → Label
unfolding has_prefix
make_label pkg name =
    if has_prefix pkg (at_sign ∷ []) then pkg ++ colon ∷ name else slashes ++ pkg ++ colon ∷ name

-- the checks of ParseAbsoluteLabel on the package and the name that it has found
unfoldable pub check_parts : Text → Text → Parsed
unfolding count_slash_slash index index_byte make_label
check_parts pkg name =
    if ltb 1 (count_slash_slash pkg)
    then err nested_slashes
    else if is_some (index name slashes)
    then err name_has_slashes
    else if is_some (index name (colon ∷ []))
    then err name_has_colon
    else ok (make_label pkg name)

-- ParseAbsoluteLabel, behind the leading slashes and with the index of the first colon
unfoldable pub parse_at : Text → Option ℕ → Parsed
unfolding base check_parts
parse_at t none = check_parts t (base t)
parse_at t (some i) = check_parts (take i t) (drop (suc i) t)

unfoldable pub parse_absolute_label : Text → Parsed
parse_absolute_label s =
    if not (has_prefix s slashes) && not (has_prefix s (at_sign ∷ []))
    then err not_absolute
    else if not (is_some (index s slashes))
    then err invalid_label
    else (let t = trim_left_slash s in parse_at t (index_byte t colon))

-- ParseRelativeLabel, where `s[0] == ':'` drops one leading colon
unfoldable pub drop_colon : Text → Text
drop_colon [] = []
drop_colon (c ∷ s) = if c == colon then s else c ∷ s

unfoldable pub parse_relative_label : Text → Text → Parsed
parse_relative_label pkg s =
    if has_prefix s slashes || has_prefix s (at_sign ∷ [])
    then parse_absolute_label s
    else if ltb 1 (count_slash_slash pkg)
    then err nested_slashes
    else if s == []
    then err empty_label
    else elim (index s (colon ∷ [])) [
      | some i ↦ if ltb 0 i then err stray_colon else ok (make_label pkg (drop_colon s))
      | none ↦ ok (make_label pkg (drop_colon s))
    ]

-- The dynamic types that an attribute's `interface{}` holds.
pub data Attr : Type 0 where
  str : Text → Attr
  int int32 : ℤ → Attr
  bool : Bool → Attr
  strs : List Text → Attr
  unknown : Attr

pub record Rule : Type 0 where
  pub schema : Text
  pub pkg_name : Text
  pub attrs : GoMap Text Attr

pub record PackageGroup : Type 0 where
  pub specs : List Text
  pub includes : List Label

pub record Package {ℓ} (Ref : Type ℓ) : Type ℓ where
  pub path : Text
  pub default_visibility : List Label
  pub files : GoMap Text Text
  pub rules : GoMap Text Ref
  pub package_groups : GoMap Text PackageGroup

-- the loop of NewRule, `for k, v := range attributes { attrs[k] = v }`
unfoldable pub put_all : GoMap Text Attr → GoMap Text Attr → GoMap Text Attr
put_all attrs [] = attrs
put_all attrs ((k, v) ∷ more) = put_all (put k v attrs) more

unfoldable pub new_rule : Text → Text → Text → GoMap Text Attr → Rule
unfolding put_all
new_rule schema pkg_name rule_name attributes = record {
  schema = schema;
  pkg_name = pkg_name;
  attrs = put_all ((codes "name", str rule_name) ∷ []) attributes;
}

-- the type assertions `v.([]string)` and `v.(string)`, with the zero value where they fail
abbrev pub as_strs : Option Attr → List Text
as_strs (some (strs l)) = l
as_strs _ = []

abbrev pub as_str : Option Attr → Option Text
as_str (some (str s)) = some s
as_str _ = none

unfoldable pub string_list_attr : Rule → Text → List Text
string_list_attr r attr_name = as_strs (lookup attr_name r.attrs)

-- the loop of LabelListAttr: what does not parse is left out
unfoldable pub parse_labels : Text → List Text → List Label
unfolding parse_relative_label
parse_labels pkg [] = []
parse_labels pkg (s ∷ rest) = elim (parse_relative_label pkg s) [
  | ok l ↦ l ∷ parse_labels pkg rest
  | err _ ↦ parse_labels pkg rest
]

unfoldable pub label_list_attr : Rule → Text → List Label
unfolding parse_labels
label_list_attr r attr_name = parse_labels r.pkg_name (as_strs (lookup attr_name r.attrs))

unfoldable pub bool_attr : Rule → Text → Bool → Bool
bool_attr r attr_name default = elim (lookup attr_name r.attrs) [ some (bool b) ↦ b | _ ↦ default ]

unfoldable pub int_attr : Rule → Text → ℤ → ℤ
int_attr r attr_name default = elim (lookup attr_name r.attrs) [ some (int n) ↦ n | _ ↦ default ]

-- LabelAttr, where an attribute that is not a string is an error, `none`
unfoldable pub label_attr : Rule → Text → Option Parsed
unfolding parse_relative_label
label_attr r attr_name =
    Option.map (λ s. parse_relative_label r.pkg_name s) (as_str (lookup attr_name r.attrs))

abbrev pub or_empty : Option Text → Text
or_empty none = []
or_empty (some s) = s

unfoldable pub name : Rule → Text
name r = or_empty (as_str (lookup (codes "name") r.attrs))

-- Rule.Label
unfoldable pub rule_label : Rule → Label
unfolding make_label name
rule_label r = make_label r.pkg_name (name r)
