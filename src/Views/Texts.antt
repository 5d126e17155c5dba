-- ===== src/Views/Texts.antt =====
-- Texts and languages of the whole application: the filter `truncate` (frontend/src/main.js) and the
-- choice of the language (frontend/src/lang/index.js). A text is its list of code units.
pub mod Laws
use wg_portal.Prelude.{
  ℕ, String, List, [], ◌∷◌, ◌++◌, Option, none, some, ltb, if◌then◌else◌, is_empty, length, take,
  units, map, or_else,
}
use wg_portal.Encoding.Uri.{cut}

-- `suffix || '...'`
abbrev pub suffix_or_dots : List ℕ → List ℕ
suffix_or_dots [] = units "..."
suffix_or_dots (c ∷ s) = c ∷ s

-- A missing suffix is `[]`.
unfoldable pub truncate : List ℕ → ℕ → List ℕ → List ℕ
truncate value max_length suffix =
    if ltb max_length (length value) then take max_length value ++ suffix_or_dots suffix else value

-- `a || b` at texts.
abbrev pub or_text : List ℕ → List ℕ → List ℕ
or_text [] b = b
or_text (c ∷ a) b = c ∷ a

-- The locale, by the stored language and the languages of the navigator.
unfoldable pub initial_locale : Option (List ℕ) → List ℕ → List ℕ → List ℕ
initial_locale stored user_language language =
    or_text (or_else stored []) (or_text (cut b'-' (or_text user_language language)).0 (units "en"))
