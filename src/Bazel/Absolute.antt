-- ===== src/Bazel/Absolute.antt =====
-- ParseAbsoluteLabel: what it returns.
use tools_jvm_autodeps.Base.{
  ◌≡◌, refl, nat_eq, text_eq, ◌∷◌, [], ◌++◌, ◌||◌, ℕ, suc, true, false, none, some, arith, Text,
  Option, is_some, ltb, take-length-append, take, drop-suc-length-append, drop,
}
use tools_jvm_autodeps.Bazel.{
  Label, ok, check_parts, parse_absolute_label, parse_at, make_label, split, slashes,
}
use tools_jvm_autodeps.Strings.{
  has_prefix, trim_left_slash, colon, slash, index_byte, index, base, at_sign, count_slash_slash,
}
use tools_jvm_autodeps.GoMap.{contains}
use tools_jvm_autodeps.Strings.Laws.{
  index-singleton, contains_of_index_byte-none, has_prefix-trim_left_slash, index_byte-append,
  index_byte-none, index_byte-cut, has_prefix-take,
}
use tools_jvm_autodeps.Bazel.Split.{split-make_label}

-- What the package and the name of a parsed label are.
pub record IsParts (pkg n : Text) : Type 0 where
  pub no_leading_slash : has_prefix pkg (slash ∷ []) ≡ false
  pub no_colon : contains colon pkg ≡ false
  pub one_pair : ltb 1 (count_slash_slash pkg) ≡ false
  pub name_no_slashes : index n slashes ≡ none
  pub name_no_colon : contains colon n ≡ false

check_parts-IsParts :
    (pkg n : Text) (l : Label)
    → has_prefix pkg (slash ∷ []) ≡ false
    → contains colon pkg ≡ false
    → check_parts pkg n ≡ ok l
    → IsParts pkg n × (l ≡ make_label pkg n)
unfolding check_parts
check_parts-IsParts pkg n l t h e =
    let clean : index n (colon ∷ []) ≡ none = ground arith in
    (
      record {
        no_leading_slash = t;
        no_colon = h;
        one_pair = ground arith;
        name_no_slashes = ground arith;
        name_no_colon = contains_of_index_byte-none n colon (rw (index-singleton n colon) at clean);
      },
      ground arith,
    )

-- The checks pass on such parts.
check_parts_of_IsParts : (pkg n : Text) → IsParts pkg n → check_parts pkg n ≡ ok (make_label pkg n)
unfolding check_parts
check_parts_of_IsParts pkg n p = rw (
  p.one_pair,
  p.name_no_slashes,
  index-singleton n colon,
  index_byte-none n colon p.name_no_colon,
)

parse_at-parse_absolute_label :
    (s : Text) (l : Label)
    → parse_absolute_label s ≡ ok l
    → parse_at (trim_left_slash s) (index_byte (trim_left_slash s) colon) ≡ ok l
unfolding parse_absolute_label
parse_at-parse_absolute_label s l h = ground arith

parse_at-IsParts :
    (t : Text) (o : Option ℕ) (l : Label)
    → has_prefix t (slash ∷ []) ≡ false
    → index_byte t colon ≡ o
    → parse_at t o ≡ ok l
    → (pkg : Text) × (n : Text) × IsParts pkg n × (l ≡ make_label pkg n)
unfolding parse_at
parse_at-IsParts t none l s e h =
    let (parts, f) = check_parts-IsParts t (base t) l s (contains_of_index_byte-none t colon e) h in
    (t, base t, parts, f)
parse_at-IsParts t (some i) l s e h =
    let (_, clean) = index_byte-cut t colon i e in
    let (parts, f) =
      check_parts-IsParts (take i t) (drop (suc i) t) l (has_prefix-take t slash i s) clean h in
    (take i t, drop (suc i) t, parts, f)

-- A label that ParseAbsoluteLabel returns is made of a package and a name that it has checked: the
-- package starts with no slash, has no colon and at most one `//`, and the name has no colon and
-- no `//`.
pub parse_absolute_label-IsParts :
    (s : Text) (l : Label)
    → parse_absolute_label s ≡ ok l
    → (pkg : Text) × (n : Text) × IsParts pkg n × (l ≡ make_label pkg n)
parse_absolute_label-IsParts s l h =
    parse_at-IsParts (trim_left_slash s) _ l (has_prefix-trim_left_slash s) refl
      (parse_at-parse_absolute_label s l h)

pub has_prefix-make_label :
    (pkg n : Text)
    → (has_prefix (make_label pkg n) slashes || has_prefix (make_label pkg n) (at_sign ∷ [])) ≡ true
unfolding make_label has_prefix
has_prefix-make_label [] n = refl
has_prefix-make_label (c ∷ pkg) n = ground arith

-- Behind leading slashes, the label of parts is the package, a colon and the name.
pub trim_left_slash-make_label :
    (pkg n : Text)
    → has_prefix pkg (slash ∷ []) ≡ false
    → trim_left_slash (make_label pkg n) ≡ pkg ++ colon ∷ n
unfolding make_label has_prefix trim_left_slash
trim_left_slash-make_label [] n h = refl
trim_left_slash-make_label (c ∷ pkg) n h = ground arith

parse_at-make_label :
    (pkg n : Text)
    → IsParts pkg n
    → parse_at (pkg ++ colon ∷ n) (index_byte (pkg ++ colon ∷ n) colon) ≡ ok (make_label pkg n)
unfolding parse_at
parse_at-make_label pkg n p =
    rw
      (
        index_byte-append pkg n colon p.no_colon,
        take-length-append pkg (colon ∷ n),
        drop-suc-length-append pkg colon n,
      )
      (check_parts_of_IsParts pkg n p)

pub parse_absolute_label-make_label :
    (pkg n : Text)
    → IsParts pkg n
    → is_some (index (make_label pkg n) slashes) ≡ true
    → parse_absolute_label (make_label pkg n) ≡ ok (make_label pkg n)
unfolding parse_absolute_label
parse_absolute_label-make_label pkg n p h = ground (
  arith,
  has_prefix-make_label pkg n,
  trim_left_slash-make_label pkg n p.no_leading_slash,
  parse_at-make_label pkg n p,
)

-- Labels are canonical: a label that ParseAbsoluteLabel returns and that holds a `//` parses again
-- to itself. Every label of the main repository holds one.
pub parse_absolute_label_idem :
    (s : Text) (l : Label)
    → parse_absolute_label s ≡ ok l
    → is_some (index l slashes) ≡ true
    → parse_absolute_label l ≡ ok l
parse_absolute_label_idem s l h k =
    let (pkg, n, parts, e) = parse_absolute_label-IsParts s l h in
    rw e (parse_absolute_label-make_label pkg n parts (rw e at k))

-- Splitting a parsed label gives parts that make the label again.
pub make_label-split :
    (s : Text) (l : Label)
    → parse_absolute_label s ≡ ok l
    → (make_label (split l).0 (split l).1 ≡ l) × IsParts (split l).0 (split l).1
make_label-split s l h =
    let (pkg, n, parts, e) = parse_absolute_label-IsParts s l h in
    let f = split-make_label pkg n parts.no_colon in rw (e, f) (refl, parts)
