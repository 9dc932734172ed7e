-- ===== src/Email/Renderer.antt =====
-- Templates: render of crates/app/src/services/email/renderer.rs.
use pairdbase.Common.{ℕ, zero, suc, ◌-◌, true, false, List, [], ◌∷◌, ◌++◌, length}
use pairdbase.Text.{Text, codes, starts_with}

-- `str::replace` of a pattern that is not empty, where so many characters are still to be passed
-- over as part of an occurrence.
unfoldable pub replace_from : Text → Text → ℕ → Text → Text
unfolding starts_with
replace_from pattern value skip [] = []
replace_from pattern value (suc skip) (c ∷ t) = replace_from pattern value skip t
replace_from pattern value zero (c ∷ t) = elim (starts_with pattern (c ∷ t)) [
  | true ↦ value ++ replace_from pattern value (length pattern - 1) t
  | false ↦ c ∷ replace_from pattern value 0 t
]

abbrev pub replace : Text → Text → Text → Text
replace pattern value t = replace_from pattern value 0 t

-- `{{key}}`.
abbrev pub placeholder : Text → Text
placeholder key = codes "{{" ++ (key ++ codes "}}")

-- The variables in the order in which the HashMap is walked.
unfoldable pub render : Text → List (Text × Text) → Text
unfolding replace_from
render template [] = template
render template ((key, value) ∷ vars) = render (replace (placeholder key) value template) vars
