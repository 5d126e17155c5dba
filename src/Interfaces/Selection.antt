-- ===== src/Interfaces/Selection.antt =====
-- The selected interface: it is one of the list, and there is one as long as the list is not empty.
use wg_portal.Prelude.{
  ℕ, suc, String, List, [], ◌∷◌, some, none, is_some, Option-cases, Bool-cases, inl, inr, length,
  Bool, ◌≡◌, refl, ===_refl, ltb, get_elem?, arith,
}
use wg_portal.Js.{World, ok, Reply, fulfilled, rejected}
use wg_portal.Js.Array
use wg_portal.Js.Keyed.{find-filter, first_some}
use wg_portal.Models.{Interface}
use wg_portal.Interfaces.{
  InterfaceStore, interface_key, count, find, first, get_selected, first_identifier, set_interfaces,
}
use wg_portal.Interfaces.Requests.{load_interfaces_reply, delete_interface_reply}

-- What find answers stands somewhere in the list.
find-get_elem? :
    (xs : List Interface) (p : Interface → Bool) (i : Interface)
    → Array.find p xs ≡ some i
    → (k : ℕ) × (get_elem? xs k ≡ some i)
unfolding Array.find
find-get_elem? [] p i h = ground arith
find-get_elem? (x ∷ xs) p i h = elim (Bool-cases (p x)) [
  | inl holds ↦ (0, ground arith)
  | inr fails ↦ let rest = find-get_elem? xs p i (ground arith) in (suc rest.0, rest.1)
]

chosen-get_elem? :
    (xs : List Interface) (p : Interface → Bool) (i : Interface)
    → first_some (Array.find p xs) (first xs) ≡ some i
    → (k : ℕ) × (get_elem? xs k ≡ some i)
unfolding Array.find
chosen-get_elem? [] p i h = ground arith
chosen-get_elem? (x ∷ xs) p i h = elim (Option-cases (Array.find p (x ∷ xs))) [
  | inl missing ↦ (0, ground arith)
  | inr found ↦ find-get_elem? (x ∷ xs) p i (ground (arith, found.1))
]

is_some-chosen :
    (xs : List Interface) (p : Interface → Bool)
    → is_some (first_some (Array.find p xs) (first xs)) ≡ ltb 0 (length xs)
unfolding Array.find
is_some-chosen [] p = refl
is_some-chosen (x ∷ xs) p = elim (Option-cases (Array.find p (x ∷ xs))) [
  | inl missing ↦ ground arith
  | inr found ↦ ground (arith, found.1)
]

-- The selected interface stands in the list, and there is one exactly if the list is not empty.
get_selected-get_elem? :
    (s : InterfaceStore)
    → ((i : Interface) → get_selected s ≡ some i → (k : ℕ) × (get_elem? s.interfaces k ≡ some i))
      × (is_some (get_selected s) ≡ ltb 0 (count s))
unfolding get_selected
get_selected-get_elem? s =
    (λ i h. chosen-get_elem? s.interfaces _ i h, is_some-chosen s.interfaces _)

pub first_identifier-selected :
    (xs : List Interface) (s : InterfaceStore)
    → s.interfaces ≡ xs
    → s.selected ≡ first_identifier xs
    → get_selected s ≡ first s.interfaces
unfolding get_selected first_identifier Array.find
first_identifier-selected [] s h k = rw (h)
first_identifier-selected (x ∷ xs) s h k = rw (h, k, ===_refl)

-- Whatever the reply to a load, and after a confirmed deletion, the selected interface is the
-- first of those that are left, and there is none if none is left; a deleted one is not found any
-- more.
get_selected-first :
    (r : Reply (List Interface)) (id : String) (w : World InterfaceStore)
    → ((v : World InterfaceStore) × (load_interfaces_reply r w ≡ ok tt v)
        × (get_selected v.store ≡ first v.store.interfaces))
      × ((v : World InterfaceStore) × (delete_interface_reply id (fulfilled tt) w ≡ ok tt v)
          × (get_selected v.store ≡ first v.store.interfaces)
          × (find v.store id ≡ none))
unfolding load_interfaces_reply delete_interface_reply set_interfaces
get_selected-first (fulfilled xs) id w = (
  (_, refl, first_identifier-selected xs _ refl refl),
  (
    _,
    refl,
    first_identifier-selected _ _ refl refl,
    rw (find-filter interface_key w.store.interfaces id id, ===_refl),
  ),
)
get_selected-first (rejected e) id w = (
  (_, refl, first_identifier-selected [] _ refl refl),
  (
    _,
    refl,
    first_identifier-selected _ _ refl refl,
    rw (find-filter interface_key w.store.interfaces id id, ===_refl),
  ),
)
