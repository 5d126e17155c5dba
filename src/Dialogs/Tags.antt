-- ===== src/Dialogs/Tags.antt =====
-- The fields of tags: the handlers handleChange* of PeerEditModal.vue and InterfaceEditModal.vue in
-- frontend/src/components. A tag is its text.
use wg_portal.Prelude.{
  String, List, [], ◌∷◌, ◌++◌, Bool, true, false, if◌then◌else◌, ◌≡◌, refl, map, append_assoc,
  append-nil, All, All-map, ◌==◌, not, Bool-cases, inl, inr, ◌∙◌, ap,
}
use Prim.Native.String.{◌++◌ as append}
use wg_portal.Js.{
  M, World, ok, Effect, notify, emit, update, return, pass, Out, throw, hang, ◌>>◌, ◌>>=◌,
}
use wg_portal.Js.Array.{filter}
use wg_portal.Js.Keeping.{Keeps}
use wg_portal.Validators.{NetworkLibrary, Rule, validate_cidr, validate_ip}

-- The notification about one tag.
abbrev complaint : String → String → Effect
complaint title tag = notify title (append tag " is not a valid IP address")

module _ {S : Type 0} (bad : String → Bool) (title : String) where
  -- `tags.forEach(…)`: the answer is validInput at the end.
  unfoldable check_tags : List String → Bool → M S Bool
  check_tags [] valid = return valid
  check_tags (tag ∷ tags) valid =
      if bad tag
      then (emit (complaint title tag) >> check_tags tags false)
      else check_tags tags valid

  unfoldable pub handle_change : (List String → S → S) → List String → M S (Unit {0})
  unfolding check_tags
  handle_change put tags =
      check_tags tags true >>= λ valid. if valid then update (put tags) else pass

-- The two checks: `isCidr(tag.text) === 0` and `!isIP(tag.text)`.
unfoldable pub handle_change_cidr :
    {S : Type 0} → NetworkLibrary → (List String → S → S) → List String → M S (Unit {0})
unfolding handle_change
handle_change_cidr lib = handle_change (λ tag. lib.is_cidr tag == 0) "Invalid CIDR"

unfoldable pub handle_change_ip :
    {S : Type 0} → NetworkLibrary → (List String → S → S) → List String → M S (Unit {0})
unfolding handle_change
handle_change_ip lib = handle_change (λ tag. not (lib.is_ip tag)) "Invalid IP"

-- What one pass over the tags leaves: the field is set only if no tag is refused, and each refused
-- tag is complained about, in order.
abbrev pub field_set :
    {S : Type 0}
    → (String → Bool)
    → String
    → (List String → S → S)
    → List String
    → World S
    → World S
field_set bad title put tags w = record {
  store = elim (filter bad tags) [ [] ↦ put tags w.store | _ ∷ _ ↦ w.store ];
  log = w.log ++ map (complaint title) (filter bad tags);
}

abbrev nothing_refused : Bool → List String → Bool
nothing_refused valid [] = valid
nothing_refused valid (_ ∷ _) = false

nothing_refused-false : (tags : List String) → nothing_refused false tags ≡ false
nothing_refused-false [] = refl
nothing_refused-false (_ ∷ _) = refl

check_tags_lem :
    {S : Type 0} (bad : String → Bool) (title : String) (tags : List String) (valid : Bool)
    (w : World S)
    → check_tags bad title tags valid w
      ≡ ok
          (nothing_refused valid (filter bad tags))
          (record w { log = w.log ++ map (complaint title) (filter bad tags) })
unfolding check_tags filter
check_tags_lem bad title [] valid w = rw (append-nil w.log) refl
check_tags_lem bad title (tag ∷ tags) valid w = elim (Bool-cases (bad tag)) [
  | inl b ↦ rw b (
      check_tags_lem bad title tags false (record w { log = w.log ++ complaint title tag ∷ [] })
      ∙ rw
          (
            nothing_refused-false (filter bad tags),
            append_assoc w.log (complaint title tag ∷ []) (map (complaint title) (filter bad tags)),
          )
          refl)
  | inr g ↦ rw g (check_tags_lem bad title tags valid w)
]

module _ {S : Type 0} (bad : String → Bool) (title : String) (put : List String → S → S)
    (tags : List String) where
  abbrev after_check : Out S Bool → Out S (Unit {0})
  after_check (ok valid v) = (if valid then update (put tags) else pass) v
  after_check (throw e v) = throw e v
  after_check hang = hang

  passed :
      (refused : List String) (w : World S)
      → after_check (
          ok
            (nothing_refused true refused)
            (record w { log = w.log ++ map (complaint title) refused }))
        ≡ ok tt (record {
          store = elim refused [ [] ↦ put tags w.store | _ ∷ _ ↦ w.store ];
          log = w.log ++ map (complaint title) refused;
        })
  passed [] w = refl
  passed (_ ∷ _) w = refl

  -- The handler never fails: it sets the field exactly when no tag is refused, and it complains
  -- about each refused tag once, in the order of the tags.
  pub handle_change_lem :
      (w : World S) → handle_change bad title put tags w ≡ ok tt (field_set bad title put tags w)
  unfolding handle_change
  handle_change_lem w =
      ap after_check (check_tags_lem bad title tags true w) ∙ passed (filter bad tags) w

  pub handle_change-Keeps :
      (P : S → Type 0)
      → ((ts : List String) (s : S) → P s → P (put ts s))
      → Keeps P (handle_change bad title put tags)
  handle_change-Keeps P keeps w h = rw (handle_change_lem w) (either (filter bad tags))
    where
      either :
          (refused : List String)
          → P (elim refused as (λ _. S) [ [] ↦ put tags w.store | _ ∷ _ ↦ w.store ])
      either [] = keeps tags w.store h
      either (_ ∷ _) = h

filter-none :
    (bad : String → Bool) (tags : List String)
    → All (λ tag. bad tag ≡ false) tags
    → filter bad tags ≡ []
unfolding filter
filter-none bad [] h = refl
filter-none bad (tag ∷ tags) (g, h) = rw (g, filter-none bad tags h) refl

silent :
    {S : Type 0} (bad : String → Bool) (title : String) (put : List String → S → S)
    (tags : List String) (w : World S)
    → All (λ tag. bad tag ≡ false) tags
    → handle_change bad title put tags w ≡ update (put tags) w
silent bad title put tags w h =
    handle_change_lem bad title put tags w
    ∙ ap
        (λ refused. ok tt (record {
          store = elim refused [ [] ↦ put tags w.store | _ ∷ _ ↦ w.store ];
          log = w.log ++ map (complaint title) refused;
        }))
        (filter-none bad tags h)
    ∙ rw (append-nil w.log) refl

-- No rule of the field marks the tag as invalid.
abbrev IsAdmitted : List Rule → String → Type 0
IsAdmitted rules tag = All (λ r. r.rule tag ≡ false) rules

-- The field and the handler agree: tags that the rules of the field let through are stored without
-- a complaint, for networks and for addresses.
handle_change-rules :
    {S : Type 0} (lib : NetworkLibrary) (put : List String → S → S)
    (networks addresses : List String) (w : World S)
    → All (IsAdmitted (validate_cidr lib)) networks
    → All (IsAdmitted (validate_ip lib)) addresses
    → (handle_change_cidr lib put networks w ≡ update (put networks) w)
      × (handle_change_ip lib put addresses w ≡ update (put addresses) w)
unfolding validate_cidr validate_ip handle_change_cidr handle_change_ip
handle_change-rules lib put networks addresses w hn ha = (
  silent (λ tag. lib.is_cidr tag == 0) "Invalid CIDR" put networks w
      (All-map (λ tag p. p.0) networks hn),
  silent (λ tag. not (lib.is_ip tag)) "Invalid IP" put addresses w
      (All-map (λ tag p. p.0) addresses ha),
)
