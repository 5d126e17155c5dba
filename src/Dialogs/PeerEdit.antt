-- ===== src/Dialogs/PeerEdit.antt =====
-- The dialog for a peer of an interface (frontend/src/components/PeerEditModal.vue): what it has
-- beside the common form, the fields of tags.
pub mod Inputs
pub mod Identity
use wg_portal.Prelude.{String, List}
use wg_portal.Dialogs.PeerForm.{PeerForm, Kind, edit}
use wg_portal.Dialogs.Tags.{handle_change_cidr, handle_change_ip}
use wg_portal.Js.{M, update}
use wg_portal.Models.{Peer}
use wg_portal.Validators.{NetworkLibrary}

-- A field of the form is set, and the watchers run.
abbrev put {ℓ} : {A : Type ℓ} → Kind → (A → Peer → Peer) → A → PeerForm → PeerForm
put k f a = edit k (f a)

unfoldable pub handle_change_addresses : Kind → NetworkLibrary → List String → M PeerForm (Unit {0})
unfolding edit handle_change_cidr
handle_change_addresses k lib =
    handle_change_cidr lib (put k (λ tags form. record form { addresses = tags }))

unfoldable pub handle_change_allowed_ips :
    Kind → NetworkLibrary → List String → M PeerForm (Unit {0})
unfolding edit handle_change_cidr
handle_change_allowed_ips k lib =
    handle_change_cidr lib
      (put k (λ tags form. record form { allowed_ips = record form.allowed_ips { value = tags } }))

unfoldable pub handle_change_extra_allowed_ips :
    Kind → NetworkLibrary → List String → M PeerForm (Unit {0})
unfolding edit handle_change_cidr
handle_change_extra_allowed_ips k lib =
    handle_change_cidr lib (put k (λ tags form. record form { extra_allowed_ips = tags }))

unfoldable pub handle_change_dns : Kind → NetworkLibrary → List String → M PeerForm (Unit {0})
unfolding edit handle_change_ip
handle_change_dns k lib =
    handle_change_ip lib
      (put k (λ tags form. record form { dns = record form.dns { value = tags } }))

unfoldable pub handle_change_dns_search : Kind → List String → M PeerForm (Unit {0})
unfolding edit
handle_change_dns_search k tags =
    update (
      put k (λ tags form. record form { dns_search = record form.dns_search { value = tags } })
        tags)
