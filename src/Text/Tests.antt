-- ===== src/Text/Tests.antt =====
-- The theorems on strings (src/osgGIS/Utils.cpp) on short strings, and runs.
use osggis.Base.{◌≡◌, refl, true, false, [], ◌∷◌, ◌++◌, Bytes}
use osggis.Text.Defs.{trim, replace_in, starts_with, ends_with, get_abs_path}
use osggis.Text.Trim.{IsTrimmed, trim-IsTrimmed}
use osggis.Text.Replace.{IsReplaced, replace_in-IsReplaced}

-- " a b\n"
abbrev spaced : Bytes
spaced = 32 ∷ 97 ∷ 32 ∷ 98 ∷ 10 ∷ []

trim-IsTrimmed_example : IsTrimmed spaced (trim spaced)
trim-IsTrimmed_example = trim-IsTrimmed spaced

trim_run : trim spaced ≡ 97 ∷ 32 ∷ 98 ∷ []
unfolding trim
trim_run = refl

-- "ab" in "xabab".
abbrev twice : Bytes
twice = 120 ∷ 97 ∷ 98 ∷ 97 ∷ 98 ∷ []

replace_in-IsReplaced_example :
    IsReplaced (97 ∷ 98 ∷ []) (97 ∷ []) twice (replace_in twice (97 ∷ 98 ∷ []) (97 ∷ []))
replace_in-IsReplaced_example = replace_in-IsReplaced 97 (98 ∷ []) (97 ∷ []) twice

replace_run : replace_in twice (97 ∷ 98 ∷ []) (97 ∷ []) ≡ 120 ∷ 97 ∷ 97 ∷ []
unfolding replace_in
replace_run = refl

-- All bytes are made one, so "b" stands at the start and at the end of "ab".
starts_run : starts_with (λ c. 0) (97 ∷ 98 ∷ []) (98 ∷ []) false ≡ true
unfolding starts_with
starts_run = refl

ends_run : ends_with (λ c. c) (97 ∷ 98 ∷ []) (98 ∷ []) true ≡ true
unfolding ends_with
ends_run = refl

abs_run : get_abs_path (λ left right. left ++ right) (97 ∷ []) (47 ∷ []) ≡ 47 ∷ []
unfolding get_abs_path
abs_run = refl
