-- ===== src/Bazel/Tests.antt =====
-- Runs of the label functions, and the theorems about them at inputs of bazel_test.go's kind.
use tools_jvm_autodeps.Base.{◌≡◌, refl, true, none, [], ◌∷◌, is_some, Text, nat_eq, text_eq}
use tools_jvm_autodeps.Strings.{
  codes, has_prefix, index, trim_left_slash, count_slash_slash, index_byte,
}
use tools_jvm_autodeps.Bazel.{
  Attr, Rule, ok, err, split, parse_absolute_label, parse_relative_label, rule_label, make_label,
  slashes, drop_colon, name, new_rule, stray_colon, name_has_slashes, nested_slashes, parse_at,
}
use tools_jvm_autodeps.Bazel.Split.{split-rule_label}
use tools_jvm_autodeps.Bazel.Absolute.{
  IsParts, parse_absolute_label-IsParts, parse_absolute_label_idem, make_label-split,
}
use tools_jvm_autodeps.Bazel.Relative.{
  IsRelative, parse_relative_label-eq-absolute, parse_relative_label_accepts,
}
use tools_jvm_autodeps.Bazel.Attrs.{name-new_rule}

split_runs :
    (split (codes "//foo:bar") ≡ (codes "foo", codes "bar"))
    × (split (codes "//foo/bar") ≡ (codes "foo/bar", codes "bar"))
    × (split (codes "//:bar") ≡ ([], codes "bar"))
unfolding split
split_runs = (refl, refl, refl)

parse_absolute_runs :
    (parse_absolute_label (codes "//foo/bar") ≡ ok (codes "//foo/bar:bar"))
    × (parse_absolute_label (codes "@ext//foo") ≡ ok (codes "@ext//foo:foo"))
    × (parse_absolute_label (codes "//a//b//c:d") ≡ err nested_slashes)
unfolding parse_absolute_label has_prefix index trim_left_slash index_byte parse_at
parse_absolute_runs = (refl, refl, refl)

parse_relative_runs :
    (parse_relative_label (codes "pkg") (codes ":foo") ≡ ok (codes "//pkg:foo"))
    × (parse_relative_label (codes "pkg") (codes "bar.go") ≡ ok (codes "//pkg:bar.go"))
    × (parse_relative_label (codes "pkg") (codes "a:b") ≡ err stray_colon)
unfolding parse_relative_label has_prefix count_slash_slash index drop_colon make_label
parse_relative_runs = (refl, refl, refl)

abbrev collect_rule : Rule
collect_rule = record {
  schema = codes "java_library";
  pkg_name = codes "java";
  attrs = (codes "name", Attr.str (codes "collect")) ∷ [];
}

split-rule_label_example : split (rule_label collect_rule) ≡ (codes "java", name collect_rule)
split-rule_label_example = split-rule_label collect_rule refl

parses : parse_absolute_label (codes "//foo/bar") ≡ ok (codes "//foo/bar:bar")
parses = parse_absolute_runs.0

parse_absolute_label-IsParts_example :
    (pkg : Text) × (n : Text) × IsParts pkg n × (codes "//foo/bar:bar" ≡ make_label pkg n)
parse_absolute_label-IsParts_example =
    parse_absolute_label-IsParts (codes "//foo/bar") (codes "//foo/bar:bar") parses

holds_slashes : is_some (index (codes "//foo/bar:bar") slashes) ≡ true
unfolding index
holds_slashes = refl

parse_absolute_label_idem_example :
    parse_absolute_label (codes "//foo/bar:bar") ≡ ok (codes "//foo/bar:bar")
parse_absolute_label_idem_example =
    parse_absolute_label_idem (codes "//foo/bar") (codes "//foo/bar:bar") parses holds_slashes

make_label-split_example :
    (make_label (split (codes "//foo/bar:bar")).0 (split (codes "//foo/bar:bar")).1
      ≡ codes "//foo/bar:bar")
    × IsParts (split (codes "//foo/bar:bar")).0 (split (codes "//foo/bar:bar")).1
make_label-split_example = make_label-split (codes "//foo/bar") (codes "//foo/bar:bar") parses

plain-IsRelative : IsRelative (codes "pkg") (codes ":foo")
unfolding has_prefix count_slash_slash drop_colon
plain-IsRelative = record {
  not_absolute = refl;
  not_empty = λ h. cc;
  pkg_in_repository = refl;
  pkg_no_leading_slash = refl;
  pkg_one_pair = refl;
  pkg_no_colon = refl;
  name_no_colon = refl;
}

plain_name : index (drop_colon (codes ":foo")) slashes ≡ none
unfolding index drop_colon
plain_name = refl

parse_relative_label-eq-absolute_example :
    parse_relative_label (codes "pkg") (codes ":foo")
    ≡ parse_absolute_label (make_label (codes "pkg") (drop_colon (codes ":foo")))
parse_relative_label-eq-absolute_example =
    parse_relative_label-eq-absolute (codes "pkg") (codes ":foo") plain-IsRelative plain_name

slashed-IsRelative : IsRelative (codes "pkg") (codes "a//b")
unfolding has_prefix count_slash_slash drop_colon
slashed-IsRelative = record {
  not_absolute = refl;
  not_empty = λ h. cc;
  pkg_in_repository = refl;
  pkg_no_leading_slash = refl;
  pkg_one_pair = refl;
  pkg_no_colon = refl;
  name_no_colon = refl;
}

slashed_name : is_some (index (drop_colon (codes "a//b")) slashes) ≡ true
unfolding index drop_colon
slashed_name = refl

parse_relative_label_accepts_example :
    (parse_relative_label (codes "pkg") (codes "a//b")
      ≡ ok (make_label (codes "pkg") (drop_colon (codes "a//b"))))
    × (parse_absolute_label (make_label (codes "pkg") (drop_colon (codes "a//b")))
        ≡ err name_has_slashes)
parse_relative_label_accepts_example =
    parse_relative_label_accepts (codes "pkg") (codes "a//b") slashed-IsRelative slashed_name

name-new_rule_example :
    (name (new_rule [] (codes "p") (codes "n") []) ≡ codes "n")
    × ((new_rule [] (codes "p") (codes "n") []).pkg_name ≡ codes "p")
    × ((new_rule [] (codes "p") (codes "n") []).schema ≡ [])
name-new_rule_example = name-new_rule [] (codes "p") (codes "n") [] refl
