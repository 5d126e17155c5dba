-- ===== src/Views/Addresses/Laws.antt =====
-- What the table shows of well-formed addresses (frontend/src/views/InterfaceView.vue,
-- components/UserViewModal.vue).
use wg_portal.Prelude.{List, [], ◌∷◌, ◌++◌, true, false, ◌==◌, map, ◌≡◌, refl, ap, ◌∙◌, All, arith}
use wg_portal.Js.Array.{filter}
use wg_portal.Views.Addresses.{
  Text, join, split, trim_start, trim_end, trim, non_empty, get_all_addresses, starts_with_digit,
  has_colon, get_peer_addresses,
}

-- An address without commas, which is not empty and neither begins nor ends with white space.
pub record IsClean (t : Text) : Type 0 where
  pub no_comma : All (λ c. (c == b',') ≡ false) t
  pub no_space : trim t ≡ t
  pub some_text : non_empty t ≡ true

-- The first piece of a split, and the others.
split-append :
    (t : Text) (s : Text) → All (λ c. (c == b',') ≡ false) t → split (t ++ b',' ∷ s) ≡ t ∷ split s
unfolding split
split-append [] s h = ground arith
split-append (c ∷ t) s (p, h) = rw (p, split-append t s h) refl

split-none : (t : Text) → All (λ c. (c == b',') ≡ false) t → split t ≡ t ∷ []
unfolding split
split-none [] h = refl
split-none (c ∷ t) (p, h) = rw (p, split-none t h) refl

-- A list of clean addresses comes back from the joined text.
split-join : (t : Text) (ts : List Text) → All IsClean (t ∷ ts) → split (join (t ∷ ts)) ≡ t ∷ ts
unfolding join
split-join t [] (c, h) = split-none t c.no_comma
split-join t (u ∷ ts) (c, h) =
    split-append t (join (u ∷ ts)) c.no_comma ∙ ap (t ∷◌) (split-join u ts h)

kept : (ts : List Text) → All IsClean ts → filter non_empty (map trim ts) ≡ ts
unfolding filter
kept [] h = refl
kept (t ∷ ts) (c, h) = rw (c.no_space, c.some_text, kept ts h) refl

get_all_addresses-nil : get_all_addresses [] ≡ []
unfolding get_all_addresses filter join split trim_start trim_end
get_all_addresses-nil = refl

get_all_addresses-clean : (ts : List Text) → All IsClean ts → get_all_addresses ts ≡ ts
unfolding get_all_addresses
get_all_addresses-clean [] h = get_all_addresses-nil
get_all_addresses-clean (t ∷ ts) h =
    ap (λ s. filter non_empty (map trim s)) (split-join t ts h) ∙ kept (t ∷ ts) h

-- Of clean addresses none is lost or changed: the table shows under IPv4 those that begin with a
-- digit, and under IPv6 those with a colon, in their order. An IPv6 address that begins with a digit
-- is shown under both.
pub get_peer_addresses-clean :
    (addresses : List Text)
    → All IsClean addresses
    → get_peer_addresses addresses
      ≡ record { ipv4 = filter starts_with_digit addresses; ipv6 = filter has_colon addresses }
unfolding get_peer_addresses
get_peer_addresses-clean addresses h = rw (get_all_addresses-clean addresses h) refl
