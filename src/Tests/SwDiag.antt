-- ===== src/Tests/SwDiag.antt =====
-- The names of tasks in sw_diag.rs.
use esp_idf_matter.Base.{List, [], ◌∷◌, some}
use esp_idf_matter.SwDiag.{Char, name_prefix}
use esp_idf_matter.SwDiag.Names.{Cut, name_prefix-Cut}

-- Three characters of two bytes and one of three, of which the last does not fit.
abbrev a_name : List Char
a_name = (195 ∷ 164 ∷ []) ∷ (195 ∷ 182 ∷ []) ∷ (195 ∷ 188 ∷ []) ∷ (226 ∷ 130 ∷ 172 ∷ []) ∷ []

name_prefix-Cut_example : Cut [] a_name (name_prefix (some a_name))
name_prefix-Cut_example = name_prefix-Cut a_name
