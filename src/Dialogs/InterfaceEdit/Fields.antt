-- ===== src/Dialogs/InterfaceEdit/Fields.antt =====
-- The fields of tags of the dialog for an interface
-- (frontend/src/components/InterfaceEditModal.vue).
use wg_portal.Prelude.{String, List, some}
use wg_portal.Dialogs.InterfaceEdit.{InterfaceForm, put_form}
use wg_portal.Dialogs.Tags.{handle_change_cidr, handle_change_ip}
use wg_portal.Js.{M, update}
use wg_portal.Models.{Interface}
use wg_portal.Validators.{NetworkLibrary}

-- A field of the form is set.
abbrev put {ℓ} : {A : Type ℓ} → (A → Interface → Interface) → A → InterfaceForm → InterfaceForm
put f a = put_form (f a)

unfoldable pub handle_change_addresses : NetworkLibrary → List String → M InterfaceForm (Unit {0})
unfolding handle_change_cidr
handle_change_addresses lib =
    handle_change_cidr lib (put (λ tags form. record form { addresses = tags }))

unfoldable pub handle_change_dns : NetworkLibrary → List String → M InterfaceForm (Unit {0})
unfolding handle_change_ip
handle_change_dns lib = handle_change_ip lib (put (λ tags form. record form { dns = some tags }))

unfoldable pub handle_change_dns_search : List String → M InterfaceForm (Unit {0})
handle_change_dns_search tags = update (put (λ tags form. record form { dns_search = tags }) tags)

unfoldable pub handle_change_peer_def_network :
    NetworkLibrary → List String → M InterfaceForm (Unit {0})
unfolding handle_change_cidr
handle_change_peer_def_network lib =
    handle_change_cidr lib (put (λ tags form. record form { peer_def_network = tags }))

unfoldable pub handle_change_peer_def_allowed_ips :
    NetworkLibrary → List String → M InterfaceForm (Unit {0})
unfolding handle_change_cidr
handle_change_peer_def_allowed_ips lib =
    handle_change_cidr lib (put (λ tags form. record form { peer_def_allowed_ips = tags }))

unfoldable pub handle_change_peer_def_dns :
    NetworkLibrary → List String → M InterfaceForm (Unit {0})
unfolding handle_change_ip
handle_change_peer_def_dns lib =
    handle_change_ip lib (put (λ tags form. record form { peer_def_dns = tags }))

unfoldable pub handle_change_peer_def_dns_search : List String → M InterfaceForm (Unit {0})
handle_change_peer_def_dns_search tags =
    update (put (λ tags form. record form { peer_def_dns_search = tags }) tags)
