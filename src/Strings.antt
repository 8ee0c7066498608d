-- ===== src/Strings.antt =====
-- The functions of Go's `strings` and `path` packages that the program calls, over bytes. An index
-- of -1 is `none`.
pub mod Laws
use Prim.Native.Char.{code}
use Prim.Native.String.{String}
use mathlib.Core.Option
use tools_jvm_autodeps.Base.{
  ℕ, zero, suc, ◌-◌, Bool, true, false, ◌&&◌, Option, none, some, List, [], ◌∷◌, ◌++◌, Text, ◌==◌,
  leb, if◌then◌else◌, length, take, drop, text_eq, nat_eq,
}

-- the bytes of an ASCII literal
abbrev pub codes : String → Text
codes String.[] = []
codes (String.◌∷◌ c s) = code c ∷ codes s

abbrev pub slash : ℕ
slash = b'/'

abbrev pub colon : ℕ
colon = b':'

abbrev pub dot : ℕ
dot = b'.'

abbrev pub at_sign : ℕ
at_sign = b'@'

-- strings.HasPrefix
unfoldable pub has_prefix : Text → Text → Bool
has_prefix s [] = true
has_prefix [] (p ∷ ps) = false
has_prefix (c ∷ s) (p ∷ ps) = c == p && has_prefix s ps

-- strings.TrimPrefix
unfoldable pub trim_prefix : Text → Text → Text
unfolding has_prefix
trim_prefix s p = if has_prefix s p then drop (length p) s else s

-- strings.HasSuffix
unfoldable pub has_suffix : Text → Text → Bool
has_suffix s t = leb (length t) (length s) && drop (length s - length t) s == t

-- strings.TrimSuffix
unfoldable pub trim_suffix : Text → Text → Text
unfolding has_suffix
trim_suffix s t = if has_suffix s t then take (length s - length t) s else s

-- strings.IndexByte
unfoldable pub index_byte : Text → ℕ → Option ℕ
index_byte [] c = none
index_byte (x ∷ s) c = if x == c then some 0 else Option.map suc (index_byte s c)

-- strings.LastIndexByte
unfoldable pub last_index_byte : Text → ℕ → Option ℕ
last_index_byte [] c = none
last_index_byte (x ∷ s) c = elim (last_index_byte s c) [
  | some i ↦ some (suc i)
  | none ↦ if x == c then some 0 else none
]

-- strings.Index
unfoldable pub index : Text → Text → Option ℕ
unfolding has_prefix
index [] t = if t == [] then some 0 else none
index (x ∷ s) t = if has_prefix (x ∷ s) t then some 0 else Option.map suc (index s t)

-- strings.LastIndex
unfoldable pub last_index : Text → Text → Option ℕ
unfolding has_prefix
last_index [] t = if t == [] then some 0 else none
last_index (x ∷ s) t = elim (last_index s t) [
  | some i ↦ some (suc i)
  | none ↦ if has_prefix (x ∷ s) t then some 0 else none
]

-- strings.Count(s, "//"): occurrences that do not overlap
unfoldable pub count_slash_slash : Text → ℕ
count_slash_slash [] = 0
count_slash_slash (c ∷ []) = 0
count_slash_slash (c ∷ d ∷ s) =
    let after = count_slash_slash s in
    let next = count_slash_slash (d ∷ s) in if c == slash && d == slash then suc after else next

-- strings.TrimLeft(s, "/")
unfoldable pub trim_left_slash : Text → Text
trim_left_slash [] = []
trim_left_slash (c ∷ s) = let rest = trim_left_slash s in if c == slash then rest else c ∷ s

-- strings.Split with a separator of one byte
unfoldable pub split_byte : Text → ℕ → List Text
split_byte [] c = [] ∷ []
split_byte (x ∷ s) c = elim (split_byte s c) [
  | [] ↦ []
  | part ∷ parts ↦ if x == c then [] ∷ part ∷ parts else (x ∷ part) ∷ parts
]

-- strings.Join with a separator of one byte
unfoldable pub join_byte : List Text → ℕ → Text
join_byte [] c = []
join_byte (p ∷ []) c = p
join_byte (p ∷ q ∷ ps) c = p ++ c ∷ join_byte (q ∷ ps) c

-- s[strings.LastIndexByte(s, c)+1:]
unfoldable pub after_last : Text → ℕ → Text
unfolding last_index_byte
after_last s c = elim (last_index_byte s c) [ none ↦ s | some i ↦ drop (suc i) s ]

unfoldable pub trim_right_slash : Text → Text
trim_right_slash [] = []
trim_right_slash (c ∷ s) = elim (trim_right_slash s) [
  | [] ↦ if c == slash then [] else c ∷ []
  | d ∷ t ↦ c ∷ d ∷ t
]

-- path.Base
unfoldable pub base : Text → Text
unfolding after_last trim_right_slash
base s =
    if s == []
    then dot ∷ []
    else (let last = after_last (trim_right_slash s) slash in
        if last == [] then slash ∷ [] else last)
