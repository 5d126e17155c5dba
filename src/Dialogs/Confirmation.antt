-- ===== src/Dialogs/Confirmation.antt =====
-- The dialog that asks a question (the script of frontend/src/components/Confirmation.vue), with the
-- answers that it has given.
use wg_portal.Prelude.{String, List, [], ◌∷◌, ◌++◌, Bool, true, false}

data Answer : Type 0 where
  agreed refused : Answer

record Confirmation : Type 0 where
  pub title : String
  pub question : String
  pub visible : Bool
  pub answers : List Answer

abbrev fresh_confirmation : Confirmation
fresh_confirmation = record {
  title = "Default Title";
  question = "Default Question";
  visible = true;
  answers = [];
}

unfoldable show_dialog : String → String → Confirmation → Confirmation
show_dialog title question s = record s { visible = true; title = title; question = question }

unfoldable agree : Confirmation → Confirmation
agree s = record s { visible = false; answers = s.answers ++ agreed ∷ [] }

unfoldable refuse : Confirmation → Confirmation
refuse s = record s { visible = false; answers = s.answers ++ refused ∷ [] }
