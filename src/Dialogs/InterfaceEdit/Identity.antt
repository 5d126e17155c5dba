-- ===== src/Dialogs/InterfaceEdit/Identity.antt =====
-- What filling in the form of an existing interface leaves alone
-- (frontend/src/components/InterfaceEditModal.vue).
use wg_portal.Prelude.{
  String, List, some, Bool, true, false, ◌===◌, ◌≡◌, refl, ◌∙◌, sym, ap, clash, subst,
}
use wg_portal.Dialogs.Forms.{Page, enter_all, enter_all-Keeps}
use wg_portal.Dialogs.InterfaceEdit.{InterfaceForm, put_form, show, present, fill_existing}
use wg_portal.Dialogs.InterfaceEdit.Fields.{
  handle_change_addresses, handle_change_dns, handle_change_dns_search,
  handle_change_peer_def_network, handle_change_peer_def_allowed_ips, handle_change_peer_def_dns,
  handle_change_peer_def_dns_search,
}
use wg_portal.Dialogs.InterfaceEdit.Inputs.{
  Field, identifier, addresses, dns, dns_search, shows, write, enters,
}
use wg_portal.Dialogs.InterfaceEdit.Inputs.Defaults
use wg_portal.Dialogs.InterfaceEdit.Inputs.Defaults.{
  DefaultField, shows_defaults, write_default, enters_default,
}
use wg_portal.Dialogs.Tags.{handle_change_cidr, handle_change_ip, handle_change-Keeps}
use wg_portal.Interfaces
use wg_portal.Interfaces.{interface_key}
use wg_portal.Js.Keyed.{find-key}
use wg_portal.Js.{M, World, ◌>>◌}
use wg_portal.Js.Keeping.{Kept, Keeps}
use wg_portal.Models.{Interface}
use wg_portal.Validators.{NetworkLibrary}

-- The inputs of both tabs.
pub data Entry : Type 0 where
  field : Field → Entry
  default : DefaultField → Entry

abbrev shows_entry : Entry → InterfaceForm → Bool
shows_entry (field i) s = shows i s
shows_entry (default i) s = shows_defaults s

abbrev enters_entry : NetworkLibrary → Entry → M InterfaceForm (Unit {0})
enters_entry lib (field i) = enters lib i
enters_entry lib (default i) = enters_default lib i

abbrev pub interface_page : NetworkLibrary → Page InterfaceForm
interface_page lib = record { Input = Entry; shows = shows_entry; enters = enters_entry lib }

-- The dialog is for the interface of this identifier, and so is its form.
abbrev pub IsFor : String → InterfaceForm → Type 0
IsFor id s = (s.interface_id ≡ id) × (s.form.identifier ≡ id)

module _ (lib : NetworkLibrary) (id : String) (f : List String → Interface → Interface)
    (keeps : (ts : List String) (form : Interface) → (f ts form).identifier ≡ form.identifier)
    (tags : List String) where
  set-IsFor : (ts : List String) (s : InterfaceForm) → IsFor id s → IsFor id (put_form (f ts) s)
  set-IsFor ts s (shown, named) = (shown, keeps ts s.form ∙ named)

  cidr-Keeps : Keeps (IsFor id) (handle_change_cidr lib (λ ts. put_form (f ts)) tags)
  unfolding handle_change_cidr
  cidr-Keeps = handle_change-Keeps _ _ (λ ts. put_form (f ts)) tags (IsFor id) set-IsFor

  ip-Keeps : Keeps (IsFor id) (handle_change_ip lib (λ ts. put_form (f ts)) tags)
  unfolding handle_change_ip
  ip-Keeps = handle_change-Keeps _ _ (λ ts. put_form (f ts)) tags (IsFor id) set-IsFor

field-Keeps :
    (lib : NetworkLibrary) (id : String) (i : Field) (w : World InterfaceForm)
    → (id === "#NEW#") ≡ false
    → shows i w.store ≡ true
    → IsFor id w.store
    → Kept (IsFor id) (enters lib i w)
unfolding enters shows write handle_change_addresses handle_change_dns handle_change_dns_search
field-Keeps lib id (identifier _) w new h p = clash _ h (ap (λ x. x === "#NEW#") p.0 ∙ new)
field-Keeps lib id (addresses tags) w new h p =
    cidr-Keeps lib id (λ ts f. record f { addresses = ts }) (λ ts f. refl) tags w p
field-Keeps lib id (dns tags) w new h p =
    ip-Keeps lib id (λ ts f. record f { dns = some ts }) (λ ts f. refl) tags w p
field-Keeps lib id (dns_search tags) w new h p = p
field-Keeps lib id _ w new h p = p

default-Keeps :
    (lib : NetworkLibrary) (id : String) (i : DefaultField)
    → Keeps (IsFor id) (enters_default lib i)
unfolding enters_default write_default handle_change_peer_def_network
    handle_change_peer_def_allowed_ips handle_change_peer_def_dns handle_change_peer_def_dns_search
default-Keeps lib id (Defaults.network tags) w p =
    cidr-Keeps lib id (λ ts f. record f { peer_def_network = ts }) (λ ts f. refl) tags w p
default-Keeps lib id (Defaults.allowed_ips tags) w p =
    cidr-Keeps lib id (λ ts f. record f { peer_def_allowed_ips = ts }) (λ ts f. refl) tags w p
default-Keeps lib id (Defaults.dns tags) w p =
    ip-Keeps lib id (λ ts f. record f { peer_def_dns = ts }) (λ ts f. refl) tags w p
default-Keeps lib id (Defaults.dns_search tags) w p = p
default-Keeps lib id _ w p = p

entry-Keeps :
    (lib : NetworkLibrary) (id : String) (e : Entry) (w : World InterfaceForm)
    → (id === "#NEW#") ≡ false
    → shows_entry e w.store ≡ true
    → IsFor id w.store
    → Kept (IsFor id) (enters_entry lib e w)
entry-Keeps lib id (field i) w new h p = field-Keeps lib id i w new h p
entry-Keeps lib id (default i) w new h p = default-Keeps lib id i w p

present-IsFor :
    (lib : NetworkLibrary) (id : String) (i : Interface) (entries : List Entry)
    (w : World InterfaceForm)
    → (id === "#NEW#") ≡ false
    → w.store.interface_id ≡ id
    → i.identifier ≡ id
    → Kept (IsFor id) ((present (some i) >> enter_all (interface_page lib) entries) w)
unfolding present fill_existing
present-IsFor lib id i entries w new shown name =
    enter_all-Keeps (interface_page lib) (IsFor id) (λ e v. entry-Keeps lib id e v new) entries
      (record w { store = put_form (fill_existing i) w.store }) (shown, name)

-- Opening the dialog on an interface of the store and filling in the form, whatever is entered and
-- however often the mode and the backend change in between, never renames the interface: the dialog
-- and its form end with the identifier the dialog was opened on.
pub enter_all-IsFor :
    (lib : NetworkLibrary) (id : String) (i : Interface) (entries : List Entry)
    (w : World InterfaceForm)
    → (id === "#NEW#") ≡ false
    → Interfaces.find w.store.interfaces id ≡ some i
    → Kept (IsFor id) ((show id >> enter_all (interface_page lib) entries) w)
unfolding show
enter_all-IsFor lib id i entries w new found =
    let v : World InterfaceForm = record w { store = record w.store { interface_id = id } } in
    subst (λ o. Kept (IsFor id) ((present o >> enter_all (interface_page lib) entries) v))
      (sym found) (present-IsFor lib id i entries v new refl (find-key interface_key _ id i found))
