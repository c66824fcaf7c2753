-- ===== src/Text/Defs.antt =====
-- StringUtils and PathUtils (src/osgGIS/Utils.cpp) on strings of bytes. `tolower` and the functions
-- of osgDB on paths are parameters.
use osggis.Base.{
  ℕ, zero, suc, ◌-◌, Bool, true, false, ◌&&◌, ◌||◌, ◌==◌, leb, Option, none, some, [], ◌∷◌, ◌++◌,
  map, length, take, drop, if◌then◌else◌, ◌>>=◌, Bytes, bytes_eq,
}

-- Does the second string begin with the first?
unfoldable pub is_prefix : Bytes → Bytes → Bool
is_prefix [] s = true
is_prefix (a ∷ sub) [] = false
is_prefix (a ∷ sub) (b ∷ s) = a == b && is_prefix sub s

-- s.find( sub ), the first place of a substring.
unfoldable pub find_sub : Bytes → Bytes → Option ℕ
unfolding is_prefix
find_sub sub [] = if is_prefix sub [] then some 0 else none
find_sub sub (c ∷ s) =
    let later = find_sub sub s in
    if is_prefix sub (c ∷ s) then some 0 else (later >>= λ k. some (suc k))

module _ (lower : ℕ → ℕ) where
  unfoldable pub to_lower : Bytes → Bytes
  to_lower s = map lower s

  abbrev pub cased : Bool → Bytes → Bytes
  cased case_sensitive s = if case_sensitive then s else map lower s

  abbrev pub is_at_start : Option ℕ → Bool
  is_at_start none = false
  is_at_start (some k) = k == 0

  unfoldable pub starts_with : Bytes → Bytes → Bool → Bool
  unfolding find_sub
  starts_with input prefix case_sensitive =
      let input_p = cased case_sensitive input in
      let prefix_p = cased case_sensitive prefix in
      leb (length prefix) (length input_p) && is_at_start (find_sub prefix_p input_p)

  unfoldable pub ends_with : Bytes → Bytes → Bool → Bool
  unfolding bytes_eq
  ends_with input suffix case_sensitive =
      let input_p = cased case_sensitive input in
      let suffix_p = cased case_sensitive suffix in
      leb (length suffix) (length input_p)
      && bytes_eq (drop (length input_p - length suffix) input_p) suffix_p

-- The loop of replaceIn, on what stands from `b` on. With fuel.
unfoldable pub replace_from : ℕ → Bytes → Bytes → Bytes → Bytes
unfolding find_sub
replace_from zero sub other s = s
replace_from (suc fuel) sub other s = elim (find_sub sub s) [
  | none ↦ s
  | some b ↦ take b s ++ (other ++ replace_from fuel sub other (drop (length sub) (drop b s)))
]

unfoldable pub replace_in : Bytes → Bytes → Bytes → Bytes
unfolding replace_from
replace_in s [] other = s
replace_in s (c ∷ sub) other = replace_from (suc (length s)) (c ∷ sub) other s

-- " \t\f\v\n\r"
abbrev pub is_space : ℕ → Bool
is_space c = c == 32 || c == 9 || c == 12 || c == 11 || c == 10 || c == 13

-- find_last_not_of( whitespaces )
unfoldable pub find_last_not_space : Bytes → Option ℕ
find_last_not_space [] = none
find_last_not_space (c ∷ s) = elim (find_last_not_space s) [
  | some k ↦ some (suc k)
  | none ↦ if is_space c then none else some 0
]

-- find_first_not_of( whitespaces )
unfoldable pub find_first_not_space : Bytes → Option ℕ
find_first_not_space [] = none
find_first_not_space (c ∷ s) =
    let later = find_first_not_space s in
    if is_space c then (later >>= λ k. some (suc k)) else some 0

abbrev pub erase_before : Option ℕ → Bytes → Bytes
erase_before none s = s
erase_before (some pos) s = drop pos s

unfoldable pub trim : Bytes → Bytes
unfolding find_last_not_space find_first_not_space
trim s = elim (find_last_not_space s) [
  | none ↦ []
  | some pos ↦ let kept = take (suc pos) s in erase_before (find_first_not_space kept) kept
]

-- path[0] == '\\' && path[1] == '\\', path[1] == ':' or path[0] == '/'
unfoldable pub is_abs_path : Bytes → Bool
is_abs_path [] = false
is_abs_path (a ∷ []) = a == b'/'
is_abs_path (a ∷ b ∷ s) = (a == b'\\' && b == b'\\') || b == b':' || a == b'/'

-- `join` is the real path of the two, as osgDB makes it.
unfoldable pub combine_paths : (Bytes → Bytes → Bytes) → Bytes → Bytes → Bytes
combine_paths join [] right = right
combine_paths join (c ∷ left) [] = c ∷ left
combine_paths join (c ∷ left) (d ∷ right) = join (c ∷ left) (d ∷ right)

unfoldable pub get_abs_path : (Bytes → Bytes → Bytes) → Bytes → Bytes → Bytes
unfolding is_abs_path combine_paths
get_abs_path join base_path my_path =
    if is_abs_path my_path then my_path else combine_paths join base_path my_path
