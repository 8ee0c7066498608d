-- ===== src/Parser/Tests.antt =====
-- Built-in classes and qualified names.
use tools_jvm_autodeps.Base.{
  ◌≡◌, refl, ◌↔◌, true, not, ◌&&◌, ◌||◌, some, List, [], ◌∷◌, ◌++◌, leb, Text, nat_eq, text_eq,
}
use tools_jvm_autodeps.GoMap.{GoMap, contains, keys}
use tools_jvm_autodeps.Strings.{codes, dot, has_prefix, join_byte}
use tools_jvm_autodeps.Sorting.{sort_by}
use tools_jvm_autodeps.Bazel.{Label}
use tools_jvm_autodeps.Jadeplib.{ClassName}
use tools_jvm_autodeps.Jadeplib.Files.{java_lang, simple_names, implicit_imports}
use tools_jvm_autodeps.Parser.Builtin.{is_builtin, search_strings, search_from}
use tools_jvm_autodeps.Parser.Builtin.Implicit.{is_builtin-implicit_imports}
use tools_jvm_autodeps.Parser.ClassNames.{
  Unicode, extract_from, extract_class_name_from_qualified_name, is_lower_case,
  looks_like_simple_class_name,
}
use tools_jvm_autodeps.Parser.ClassNames.Extracted.{IsQualified, extract_class_name_iff}

abbrev dict : GoMap ClassName (List Label)
dict =
    (codes "java.lang.String", [])
    ∷ (codes "java.util.List", [])
    ∷ (codes "java.lang.Integer", [])
    ∷ (codes "java.lang.ref.Cleaner", [])
    ∷ []

sorts : implicit_imports dict ≡ codes "Integer" ∷ codes "String" ∷ []
unfolding implicit_imports simple_names has_prefix sort_by
sorts = refl

finds : is_builtin (implicit_imports dict) (codes "String") ≡ true
unfolding implicit_imports simple_names has_prefix sort_by is_builtin search_strings search_from
finds = refl

is_builtin-implicit_imports_example :
    is_builtin (implicit_imports dict) (codes "String")
    ≡ (contains (java_lang ++ codes "String") (keys dict) && not (contains dot (codes "String")))
is_builtin-implicit_imports_example = is_builtin-implicit_imports dict (codes "String")

-- Unicode on ASCII
abbrev ascii : Unicode
ascii = record {
  runes = λ s. s;
  is_upper = λ c. leb b'A' c && leb c b'Z';
  is_one_of =
      λ c. (leb b'0' c && leb c b'9') || (leb b'A' c && leb c b'Z') || (leb b'a' c && leb c b'z');
}

abbrev parts : List Text
parts = codes "com" ∷ codes "Foo" ∷ codes "Bar" ∷ []

extracts : extract_class_name_from_qualified_name ascii parts ≡ some (codes "com.Foo", 1)
unfolding extract_class_name_from_qualified_name extract_from is_lower_case
    looks_like_simple_class_name join_byte
extracts = refl

extract_class_name_iff_example :
    (extract_class_name_from_qualified_name ascii parts ≡ some (codes "com.Foo", 1))
    ↔ IsQualified ascii parts (codes "com.Foo") 1
extract_class_name_iff_example = extract_class_name_iff ascii parts (codes "com.Foo") 1
