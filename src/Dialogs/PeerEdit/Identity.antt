-- ===== src/Dialogs/PeerEdit/Identity.antt =====
-- What filling in the form of a peer leaves alone (frontend/src/components/PeerEditModal.vue).
use wg_portal.Prelude.{String, List, ◌≡◌, refl}
use wg_portal.Dialogs.Forms.{Page, enter_all, enter_all-Keeps}
use wg_portal.Dialogs.PeerEdit.{
  handle_change_addresses, handle_change_allowed_ips, handle_change_extra_allowed_ips,
  handle_change_dns, handle_change_dns_search,
}
use wg_portal.Dialogs.PeerEdit.Inputs.{
  Field, display_name, addresses, allowed_ips, extra_allowed_ips, dns, dns_search, expiry_date,
  expiry_time, shows, write, enters,
}
use wg_portal.Dialogs.PeerForm.{PeerForm, Kind, edit}
use wg_portal.Dialogs.PeerForm.Editing.{edit-form}
use wg_portal.Dialogs.Tags.{handle_change_cidr, handle_change_ip, handle_change-Keeps}
use wg_portal.Js.{World}
use wg_portal.Js.Keeping.{Kept, Keeps}
use wg_portal.Models.{Peer}
use wg_portal.Validators.{NetworkLibrary}

abbrev peer_page : Kind → NetworkLibrary → Page PeerForm
peer_page k lib = record { Input = Field; shows = shows k; enters = enters k lib }

-- The two are the same peer of the same interface.
abbrev IsSame : Peer → Peer → Type 0
IsSame p q =
    (q.identifier ≡ p.identifier)
    × (q.interface_identifier ≡ p.interface_identifier)
    × (q.mode ≡ p.mode)
    × (q.filename ≡ p.filename)

abbrev IsOf : Peer → PeerForm → Type 0
IsOf p s = IsSame p s.form

module _ (k : Kind) (lib : NetworkLibrary) (p : Peer) where
  edit-IsOf : (f : Peer → Peer) (s : PeerForm) → IsSame p (f s.form) → IsOf p (edit k f s)
  edit-IsOf f s q = edit-form (IsSame p) (λ b r h. h) k f s q

  module _ (f : List String → Peer → Peer)
      (same : (ts : List String) (q : Peer) → IsSame p q → IsSame p (f ts q))
      (tags : List String) where
    cidr-Keeps : Keeps (IsOf p) (handle_change_cidr lib (λ ts. edit k (f ts)) tags)
    unfolding handle_change_cidr
    cidr-Keeps =
        handle_change-Keeps _ _ (λ ts. edit k (f ts)) tags (IsOf p)
          (λ ts s q. edit-IsOf (f ts) s (same ts s.form q))

    ip-Keeps : Keeps (IsOf p) (handle_change_ip lib (λ ts. edit k (f ts)) tags)
    unfolding handle_change_ip
    ip-Keeps =
        handle_change-Keeps _ _ (λ ts. edit k (f ts)) tags (IsOf p)
          (λ ts s q. edit-IsOf (f ts) s (same ts s.form q))

  write-IsSame : (i : Field) (q : Peer) → IsSame p q → IsSame p (write i q)
  unfolding write
  write-IsSame (display_name _) q h = h
  write-IsSame _ q h = h

  field-Keeps : (i : Field) → Keeps (IsOf p) (enters k lib i)
  unfolding enters handle_change_addresses handle_change_allowed_ips handle_change_extra_allowed_ips
      handle_change_dns handle_change_dns_search
  field-Keeps (addresses tags) w h =
      cidr-Keeps (λ ts q. record q { addresses = ts }) (λ ts q h. h) tags w h
  field-Keeps (allowed_ips tags) w h =
      cidr-Keeps (λ ts q. record q { allowed_ips = record q.allowed_ips { value = ts } })
        (λ ts q h. h) tags w h
  field-Keeps (extra_allowed_ips tags) w h =
      cidr-Keeps (λ ts q. record q { extra_allowed_ips = ts }) (λ ts q h. h) tags w h
  field-Keeps (dns tags) w h =
      ip-Keeps (λ ts q. record q { dns = record q.dns { value = ts } }) (λ ts q h. h) tags w h
  field-Keeps (dns_search tags) w h =
      edit-IsOf (λ q. record q { dns_search = record q.dns_search { value = tags } }) w.store h
  field-Keeps (expiry_date d) w h = h
  field-Keeps (expiry_time t) w h = h
  field-Keeps i w h = edit-IsOf (write i) w.store (write-IsSame i w.store.form h)

-- Filling in the form of a peer, whatever is entered and whatever the watchers do, never makes it
-- another peer: its identifier, its interface, its mode and the name of its file stay.
enter_all-IsSame :
    (k : Kind) (lib : NetworkLibrary) (entries : List Field) (w : World PeerForm)
    → Kept (λ s. IsSame w.store.form s.form) (enter_all (peer_page k lib) entries w)
enter_all-IsSame k lib entries w =
    enter_all-Keeps (peer_page k lib) (IsOf w.store.form)
      (λ i v _. field-Keeps k lib w.store.form i v) entries w (refl, refl, refl, refl)
