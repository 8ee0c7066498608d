-- ===== src/Bazel/Relative.antt =====
-- ParseRelativeLabel against ParseAbsoluteLabel.
use tools_jvm_autodeps.Base.{
  ◌≡◌, refl, nat_eq, text_eq, ◌∷◌, [], ◌++◌, ◌==◌, ◌||◌, ◌≢◌, ◌⊎◌, true, false, none, some, inl,
  inr, arith, Text, is_some, ◌∙◌, ltb, sym, Bool-cases, take-length-append, drop-suc-length-append,
}
use tools_jvm_autodeps.Bazel.{
  ok, err, drop_colon, parse_relative_label, make_label, parse_at, parse_absolute_label,
  check_parts, slashes, name_has_slashes,
}
use tools_jvm_autodeps.Strings.{
  has_prefix, index, at_sign, slash, count_slash_slash, colon, index_byte,
}
use tools_jvm_autodeps.GoMap.{contains}
use tools_jvm_autodeps.Bazel.Absolute.{
  IsParts, parse_absolute_label-make_label, has_prefix-make_label, trim_left_slash-make_label,
}
use tools_jvm_autodeps.Strings.Laws.{index-singleton, index_byte-append, index_byte-none}

-- The relative label `s`, with its leading colon if it has one, in a package.
pub record IsRelative (pkg s : Text) : Type 0 where
  pub not_absolute : (has_prefix s slashes || has_prefix s (at_sign ∷ [])) ≡ false
  pub not_empty : s ≢ []
  pub pkg_in_repository : has_prefix pkg (at_sign ∷ []) ≡ false
  pub pkg_no_leading_slash : has_prefix pkg (slash ∷ []) ≡ false
  pub pkg_one_pair : ltb 1 (count_slash_slash pkg) ≡ false
  pub pkg_no_colon : contains colon pkg ≡ false
  pub name_no_colon : contains colon (drop_colon s) ≡ false

index-colon-drop_colon :
    (s : Text)
    → contains colon (drop_colon s) ≡ false
    → (index s (colon ∷ []) ≡ none) ⊎ (index s (colon ∷ []) ≡ some 0)
unfolding drop_colon index
index-colon-drop_colon [] h = inl refl
index-colon-drop_colon (c ∷ s) h = elim (Bool-cases (c == colon)) [
  | inl e ↦ inr (ground arith)
  | inr e ↦ inl (rw index-singleton (index_byte-none (c ∷ s) colon (ground arith)))
]

-- A relative label is its name in the package.
pub parse_relative_label-make_label :
    (pkg s : Text)
    → IsRelative pkg s
    → parse_relative_label pkg s ≡ ok (make_label pkg (drop_colon s))
unfolding parse_relative_label
parse_relative_label-make_label pkg s r = ground (arith, index-colon-drop_colon s r.name_no_colon)

IsParts-drop_colon :
    (pkg s : Text)
    → IsRelative pkg s
    → index (drop_colon s) slashes ≡ none
    → IsParts pkg (drop_colon s)
IsParts-drop_colon pkg s r h = record {
  no_leading_slash = r.pkg_no_leading_slash;
  no_colon = r.pkg_no_colon;
  one_pair = r.pkg_one_pair;
  name_no_slashes = h;
  name_no_colon = r.name_no_colon;
}

-- A label of the main repository starts with `//`.
index-make_label :
    (pkg n : Text)
    → has_prefix pkg (at_sign ∷ []) ≡ false
    → is_some (index (make_label pkg n) slashes) ≡ true
unfolding make_label index
index-make_label pkg n h = rw h

parse_at_name_has_slashes :
    (pkg n : Text)
    → contains colon pkg ≡ false
    → ltb 1 (count_slash_slash pkg) ≡ false
    → is_some (index n slashes) ≡ true
    → parse_at (pkg ++ colon ∷ n) (index_byte (pkg ++ colon ∷ n) colon) ≡ err name_has_slashes
unfolding parse_at check_parts
parse_at_name_has_slashes pkg n c p h = rw (
  index_byte-append pkg n colon c,
  take-length-append pkg (colon ∷ n),
  drop-suc-length-append pkg colon n,
  p,
  h,
)

-- The relative parse of a label agrees with the absolute parse of the same name written out behind
-- its package, where the name holds no `//`.
pub parse_relative_label-eq-absolute :
    (pkg s : Text)
    → IsRelative pkg s
    → index (drop_colon s) slashes ≡ none
    → parse_relative_label pkg s ≡ parse_absolute_label (make_label pkg (drop_colon s))
parse_relative_label-eq-absolute pkg s r h =
    let open_parts = IsParts-drop_colon pkg s r h in
    parse_relative_label-make_label pkg s r
    ∙ sym (
        parse_absolute_label-make_label pkg (drop_colon s) open_parts
          (index-make_label pkg (drop_colon s) r.pkg_in_repository))

-- Where the name holds a `//`, the relative parse accepts the label that the absolute parse
-- rejects.
pub parse_relative_label_accepts :
    (pkg s : Text)
    → IsRelative pkg s
    → is_some (index (drop_colon s) slashes) ≡ true
    → (parse_relative_label pkg s ≡ ok (make_label pkg (drop_colon s)))
      × (parse_absolute_label (make_label pkg (drop_colon s)) ≡ err name_has_slashes)
unfolding parse_absolute_label
parse_relative_label_accepts pkg s r h = (
  parse_relative_label-make_label pkg s r,
  ground (
    arith,
    has_prefix-make_label pkg (drop_colon s),
    index-make_label pkg (drop_colon s) r.pkg_in_repository,
    trim_left_slash-make_label pkg (drop_colon s) r.pkg_no_leading_slash,
    parse_at_name_has_slashes pkg (drop_colon s) r.pkg_no_colon r.pkg_one_pair h,
  ),
)
