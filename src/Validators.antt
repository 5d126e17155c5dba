-- ===== src/Validators.antt =====
-- The rules of the tag inputs (frontend/src/helpers/validators.js), over the packages is-cidr and
-- is-ip, which are a parameter. A rule that holds marks the text as invalid.
use wg_portal.Prelude.{ℕ, String, List, [], ◌∷◌, Bool, true, not, ◌==◌, ltb, length, units}

-- `isCidr(text)` is 0 for no network, and else the version; `isIP(text)`.
pub record NetworkLibrary : Type 0 where
  pub is_cidr : String → ℕ
  pub is_ip : String → Bool

pub record Rule : Type 0 where
  pub classes : String
  pub rule : String → Bool
  pub disable_add : Bool

unfoldable pub validate_cidr : NetworkLibrary → List Rule
validate_cidr lib =
    record { classes = "invalid-cidr"; rule = λ text. lib.is_cidr text == 0; disable_add = true }
    ∷ []

unfoldable pub validate_ip : NetworkLibrary → List Rule
validate_ip lib =
    record { classes = "invalid-ip"; rule = λ text. not (lib.is_ip text); disable_add = true } ∷ []

-- The length of a text counts its code units.
unfoldable validate_domain : List Rule
validate_domain =
    record {
      classes = "invalid-domain";
      rule = λ text. ltb (length (units text)) 3;
      disable_add = true;
    }
    ∷ []
