-- ===== src/Parser/Builtin.antt =====
-- isBuiltin of lang/java/parser/parser.go, with Go's sort.SearchStrings.
pub mod Order
pub mod Search
pub mod Implicit
use tools_jvm_autodeps.Base.{
  ℕ, zero, suc, ◌+◌, ◌/◌, Bool, true, false, not, Option, none, some, List, ltb, if◌then◌else◌,
  length, get_elem?, ◌==◌, Text, nat_eq, text_eq,
}
use tools_jvm_autodeps.Sorting.{text_less}

-- `strings[i] >= s`
abbrev pub reaches : Text → Option Text → Bool
reaches s none = true
reaches s (some t) = not (text_less t s)

-- sort.Search: the least index in [i, j) from which the test holds, or `j`. The halving takes at most
-- as many rounds as there are elements.
unfoldable pub search_from : ℕ → List Text → Text → ℕ → ℕ → Option ℕ
search_from zero strings s i j = none
search_from (suc fuel) strings s i j =
    let h = (i + j) / 2 in
    let right = search_from fuel strings s (suc h) j in
    let left = search_from fuel strings s i h in
    if not (ltb i j) then some i else if reaches s (get_elem? strings h) then left else right

-- sort.SearchStrings
unfoldable pub search_strings : List Text → Text → Option ℕ
unfolding search_from
search_strings strings s = search_from (suc (length strings)) strings s 0 (length strings)

abbrev pub is_string : Text → Option Text → Bool
is_string s none = false
is_string s (some t) = t == s

-- isBuiltin
unfoldable pub is_builtin : List Text → Text → Bool
unfolding search_strings
is_builtin strings s = elim (search_strings strings s) [
  | none ↦ false
  | some i ↦ is_string s (get_elem? strings i)
]
