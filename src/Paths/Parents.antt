-- ===== src/Paths/Parents.antt =====
-- filepath.Dir goes from a relative path to its parent.
use tools_jvm_autodeps.Base.{
  ℕ, suc, ◌≡◌, refl, sym, ap, ◌∙◌, Bool, false, some, List, [], ◌∷◌, ◌++◌, append-nil, append_assoc,
  arith, nat_beq_iff, length, take, ◌==◌, Text, nat_eq, text_eq,
}
use tools_jvm_autodeps.GoMap.{contains}
use tools_jvm_autodeps.Strings.{slash, dot, split_byte, last_index_byte}
use tools_jvm_autodeps.Strings.Laws.{last_index_byte-none, split_byte-ne-nil}
use tools_jvm_autodeps.Paths.{
  dots, push, push_all, is_abs, elements, join_stack, or_dot, clean, up_to, dir,
}

-- an element that is a name
pub record IsName (x : Text) : Type 0 where
  pub not_empty : (x == []) ≡ false
  pub not_dot : (x == (dot ∷ [])) ≡ false
  pub not_dots : (x == dots) ≡ false
  pub no_slash : contains slash x ≡ false

abbrev pub AreNames : List Text → Type 0
AreNames [] = Unit
AreNames (x ∷ stack) = IsName x × AreNames stack

-- the relative path of a stack
abbrev pub path_of : List Text → Text
path_of stack = or_dot (join_stack stack)

-- A separator between two texts parts them.
split_byte-append :
    (s : Text) (c : ℕ) (t : Text) → split_byte (s ++ c ∷ t) c ≡ split_byte s c ++ split_byte t c
unfolding split_byte
split_byte-append [] c t = let (p, ps, e) = split_byte-ne-nil t c in ground (arith, nat_beq_iff c c)
split_byte-append (x ∷ s) c t =
    let (p, ps, e) = split_byte-ne-nil s c in ground (arith, split_byte-append s c t)

split_byte-none : (s : Text) (c : ℕ) → contains c s ≡ false → split_byte s c ≡ s ∷ []
unfolding split_byte
split_byte-none [] c h = refl
split_byte-none (x ∷ s) c h = ground (arith, split_byte-none s c)

push_all-append :
    (rooted : Bool) (stack xs ys : List Text)
    → push_all rooted stack (xs ++ ys) ≡ push_all rooted (push_all rooted stack xs) ys
unfolding push_all
push_all-append rooted stack [] ys = refl
push_all-append rooted stack (x ∷ xs) ys = push_all-append rooted (push rooted stack x) xs ys

push_name :
    (rooted : Bool) (stack : List Text) (x : Text) → IsName x → push rooted stack x ≡ x ∷ stack
push_name rooted stack x n = ground arith

push_all-name :
    (rooted : Bool) (stack : List Text) (x : Text)
    → IsName x
    → push_all rooted stack (split_byte x slash) ≡ x ∷ stack
unfolding push_all
push_all-name rooted stack x n =
    rw (split_byte-none x slash n.no_slash) (push_name rooted stack x n)

-- The elements of the path of a stack are the stack.
pub push_all-join_stack :
    (x : Text) (stack : List Text)
    → AreNames (x ∷ stack)
    → push_all false [] (split_byte (join_stack (x ∷ stack)) slash) ≡ x ∷ stack
push_all-join_stack x [] (n, ns) = push_all-name false [] x n
push_all-join_stack x (y ∷ stack) (n, ns) =
    ap (push_all false []) (split_byte-append (join_stack (y ∷ stack)) slash x)
    ∙ (push_all-append false [] (split_byte (join_stack (y ∷ stack)) slash) (split_byte x slash)
        ∙ (ap (λ s. push_all false s (split_byte x slash)) (push_all-join_stack y stack ns)
            ∙ push_all-name false (y ∷ stack) x n))

is_abs-name : (x t : Text) → IsName x → is_abs (x ++ t) ≡ false
is_abs-name [] t n = ground (arith, n.not_empty)
is_abs-name (c ∷ x) t n = ground (arith, n.no_slash)

pub is_abs-join_stack :
    (x : Text) (stack : List Text) (t : Text)
    → AreNames (x ∷ stack)
    → is_abs (join_stack (x ∷ stack) ++ t) ≡ false
is_abs-join_stack x [] t (n, ns) = is_abs-name x t n
is_abs-join_stack x (y ∷ stack) t (n, ns) =
    ap is_abs (append_assoc (join_stack (y ∷ stack)) (slash ∷ x) t)
    ∙ is_abs-join_stack y stack (slash ∷ x ++ t) ns

or_dot-join_stack :
    (x : Text) (stack : List Text) (t : Text)
    → AreNames (x ∷ stack)
    → or_dot (join_stack (x ∷ stack) ++ t) ≡ join_stack (x ∷ stack) ++ t
or_dot-join_stack [] [] t (n, ns) = ground (arith, n.not_empty)
or_dot-join_stack (c ∷ x) [] t (n, ns) = refl
or_dot-join_stack x (y ∷ stack) t (n, ns) =
    let e = append_assoc (join_stack (y ∷ stack)) (slash ∷ x) t in
    ap or_dot e ∙ (or_dot-join_stack y stack (slash ∷ x ++ t) ns ∙ sym e)

pub path_of-names :
    (x : Text) (stack : List Text)
    → AreNames (x ∷ stack)
    → path_of (x ∷ stack) ≡ join_stack (x ∷ stack)
path_of-names x stack ns =
    let e = append-nil (join_stack (x ∷ stack)) in
    ap or_dot (sym e) ∙ (or_dot-join_stack x stack [] ns ∙ e)

pub last_index_byte-middle :
    (p x : Text)
    → contains slash x ≡ false
    → last_index_byte (p ++ slash ∷ x) slash ≡ some (length p)
unfolding last_index_byte
last_index_byte-middle [] x h = ground (arith, last_index_byte-none x slash h)
last_index_byte-middle (c ∷ p) x h = ground (arith, last_index_byte-middle p x h)

take-middle : (p x : Text) → take (suc (length p)) (p ++ slash ∷ x) ≡ p ++ slash ∷ []
take-middle [] x = refl
take-middle (c ∷ p) x = ap (λ s. c ∷ s) (take-middle p x)

-- A trailing slash is cleaned away.
elements-slash :
    (x : Text) (stack : List Text)
    → AreNames (x ∷ stack)
    → elements (join_stack (x ∷ stack) ++ slash ∷ []) ≡ x ∷ stack
unfolding elements
elements-slash x stack ns =
    let p = join_stack (x ∷ stack) in
    rw (is_abs-join_stack x stack (slash ∷ []) ns) (
      ap (push_all false []) (split_byte-append p slash [])
      ∙ (push_all-append false [] (split_byte p slash) (split_byte [] slash)
          ∙ (ap (λ s. push_all false s (split_byte [] slash)) (push_all-join_stack x stack ns)
              ∙ refl)))

clean-slash :
    (x : Text) (stack : List Text)
    → AreNames (x ∷ stack)
    → clean (join_stack (x ∷ stack) ++ slash ∷ []) ≡ path_of (x ∷ stack)
unfolding clean
clean-slash x stack ns =
    rw (is_abs-join_stack x stack (slash ∷ []) ns, elements-slash x stack ns) refl

clean-nil : clean [] ≡ dot ∷ []
unfolding clean elements
clean-nil = refl

-- The parent of a path of names is the path without its last element, and `.` for a single name.
pub dir-path_of :
    (x : Text) (stack : List Text)
    → AreNames (x ∷ stack)
    → dir (path_of (x ∷ stack)) ≡ path_of stack
unfolding dir
dir-path_of x [] (n, ns) =
    ap (λ s. clean (up_to (last_index_byte s slash) s)) (path_of-names x [] (n, ns))
    ∙ (ap (λ i. clean (up_to i x)) (last_index_byte-none x slash n.no_slash) ∙ clean-nil)
dir-path_of x (y ∷ stack) (n, ns) =
    let p = join_stack (y ∷ stack) in
    ap (λ s. clean (up_to (last_index_byte s slash) s)) (path_of-names x (y ∷ stack) (n, ns))
    ∙ (ap (λ i. clean (up_to i (p ++ slash ∷ x))) (last_index_byte-middle p x n.no_slash)
        ∙ (ap clean (take-middle p x) ∙ clean-slash y stack ns))

slash-ne-dot : (p x : Text) → (p ++ slash ∷ x == (dot ∷ [])) ≡ false
slash-ne-dot [] x = refl
slash-ne-dot (c ∷ []) x = ground arith
slash-ne-dot (c ∷ d ∷ p) x = ground arith

-- The path of names is not `.`.
pub path_of-ne-dot :
    (x : Text) (stack : List Text)
    → AreNames (x ∷ stack)
    → (path_of (x ∷ stack) == (dot ∷ [])) ≡ false
path_of-ne-dot x [] (n, ns) = ap (λ s. s == (dot ∷ [])) (path_of-names x [] (n, ns)) ∙ n.not_dot
path_of-ne-dot x (y ∷ stack) (n, ns) =
    let p = join_stack (y ∷ stack) in
    ap (λ s. s == (dot ∷ [])) (path_of-names x (y ∷ stack) (n, ns)) ∙ slash-ne-dot p x
