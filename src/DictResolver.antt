-- ===== src/DictResolver.antt =====
-- dictresolver/dictresolver.go: resolving class names by a map that is read from a CSV file.
--
-- A future is the value that it holds. A rule of the result is one that was loaded or a new one. The
-- records are what the CSV reader returns, up to its error: each has a first field.
pub mod Loops
pub mod Answers
pub mod Tests
use tools_jvm_autodeps.Base.{Option, none, some, List, [], ◌∷◌, ◌++◌, Text, nat_eq, text_eq}
use tools_jvm_autodeps.GoMap.{GoMap, lookup, get, put, delete, keys}
use tools_jvm_autodeps.Bazel.{Label, Rule, Parsed, split, parse_absolute_label, new_rule}
use tools_jvm_autodeps.PkgLoading.{Result, ok, err, ◌>>=◌, Loader, load_rules}
use tools_jvm_autodeps.ResolverUtil.{satisfied_by_existing_deps}
use tools_jvm_autodeps.Jadeplib.{ClassName, DepsOfRules}

abbrev pub Dict : Type 0
Dict = GoMap ClassName (List Label)

pub data Found (Ref : Type 0) : Type 0 where
  loaded : Ref → Found Ref
  made : Rule → Found Ref

abbrev pub append_labels : ClassName → Option (List Label) → Dict → Dict
append_labels cls none candidates = candidates
append_labels cls (some labels) candidates = put cls (get [] cls candidates ++ labels) candidates

-- the loop that looks the class names up
unfoldable pub candidates_of : Dict → Dict → List ClassName → Dict
candidates_of dict candidates [] = candidates
candidates_of dict candidates (cls ∷ class_names) =
    candidates_of dict (append_labels cls (lookup cls dict) candidates) class_names

-- `for cls := range alreadySat { delete(candidates, cls) }`
unfoldable pub delete_all : Dict → List ClassName → Dict
delete_all candidates [] = candidates
delete_all candidates (cls ∷ already_sat) = delete_all (delete cls candidates) already_sat

unfoldable pub all_labels : List Label → Dict → List Label
all_labels labels [] = labels
all_labels labels ((cls, c) ∷ candidates) = all_labels (labels ++ c) candidates

module _ {Ref : Type 0} where
  abbrev pub append_one :
      ClassName
      → Option (Found Ref)
      → GoMap ClassName (List (Found Ref))
      → GoMap ClassName (List (Found Ref))
  append_one cls none result = result
  append_one cls (some r) result = put cls (get [] cls result ++ r ∷ []) result

  -- the two inner loops over labels
  unfoldable pub append_found :
      (Label → Option (Found Ref))
      → ClassName
      → List Label
      → GoMap ClassName (List (Found Ref))
      → GoMap ClassName (List (Found Ref))
  append_found find cls [] result = result
  append_found find cls (label ∷ labels) result =
      append_found find cls labels (append_one cls (find label) result)

  -- a rule with no kind and no attributes
  unfoldable pub named_rule : Label → Option (Found Ref)
  unfolding split new_rule
  named_rule label = let (p, r) = split label in some (made (new_rule [] p r []))

  abbrev pub as_loaded : Option Ref → Option (Found Ref)
  as_loaded none = none
  as_loaded (some r) = some (loaded r)

  unfoldable pub rule_at : GoMap Label Ref → Label → Option (Found Ref)
  rule_at rules label = as_loaded (lookup label rules)

  -- the loop over the classes that are satisfied
  unfoldable pub add_satisfied :
      GoMap ClassName (List (Found Ref)) → Dict → GoMap ClassName (List (Found Ref))
  unfolding append_found
  add_satisfied result [] = result
  add_satisfied result ((cls, labels) ∷ already_sat) =
      add_satisfied (append_found named_rule cls labels result) already_sat

  -- the loop over the other candidates
  unfoldable pub add_candidates :
      GoMap Label Ref
      → GoMap ClassName (List (Found Ref))
      → Dict
      → GoMap ClassName (List (Found Ref))
  unfolding append_found
  add_candidates rules result [] = result
  add_candidates rules result ((cls, labels) ∷ candidates) =
      add_candidates rules (append_found (rule_at rules) cls labels (put cls [] result)) candidates

  -- Resolve
  unfoldable pub resolve :
      {E : Type 0}
      → Dict
      → Loader E Ref
      → List ClassName
      → DepsOfRules
      → Result E (GoMap ClassName (List (Found Ref)))
  unfolding candidates_of satisfied_by_existing_deps delete_all all_labels load_rules add_satisfied
      add_candidates
  resolve dict load class_names consuming_rules =
      let candidates = candidates_of dict [] class_names in
      let already_sat = satisfied_by_existing_deps consuming_rules candidates in
      let rest = delete_all candidates (keys already_sat) in
      (load_rules load (all_labels [] rest) >>= λ answer.
      ok (add_candidates answer.0 (add_satisfied [] already_sat) rest))

abbrev pub append_parsed : ClassName → Parsed → Dict → Dict
append_parsed cls (Parsed.ok l) result = put cls (get [] cls result ++ l ∷ []) result
append_parsed cls (Parsed.err e) result = result

-- the loop over the other fields of a record
unfoldable pub read_labels : ClassName → Dict → List Text → Dict
unfolding parse_absolute_label
read_labels cls result [] = result
read_labels cls result (field ∷ fields) =
    read_labels cls (append_parsed cls (parse_absolute_label field) result) fields

-- the loop over the records
unfoldable pub read_records : Dict → List (Text × List Text) → Dict
unfolding read_labels
read_records result [] = result
read_records result ((cls, fields) ∷ records) =
    read_records (read_labels cls (put cls [] result) fields) records

-- ReadDictFromCSV, where `none` is the end of the file
unfoldable pub read_dict_from_csv :
    {E : Type 0} → List (Text × List Text) → Option E → Result E Dict
unfolding read_records
read_dict_from_csv records none = ok (read_records [] records)
read_dict_from_csv records (some error) = err error
