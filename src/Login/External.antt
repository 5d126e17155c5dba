-- ===== src/Login/External.antt =====
-- The address of an external login, as the backend reads it.
use wg_portal.Prelude.{
  ℕ, ◌<◌, List, [], ◌∷◌, ◌++◌, Option, some, none, ◌≡◌, refl, ap, ◌∙◌, All, map_option, units,
  concat_map, append_assoc,
}
use wg_portal.Encoding.Uri.{
  encode_uri_component, points, utf8, query_unescape, parse_query, query_of, cut, encode_point,
  unreserved, unescape_from,
}
use wg_portal.Encoding.Uri.Laws.{unescape_from-points, points-Valid, Valid}
use wg_portal.Encoding.Uri.Queries.{
  Free, Separator, cut-Free, cut-Free_whole, pieces-Free, concat_map-Free,
}
use wg_portal.Login.{redirect_url}

abbrev external_query : List ℕ → List ℕ
external_query t = units "redirect=true" ++ units "&return=" ++ t

query_of-external :
    (a t : List ℕ)
    → Free b'#' a
    → Free b'?' a
    → Free b'#' t
    → query_of (a ++ b'?' ∷ external_query t) ≡ external_query t
unfolding query_of
query_of-external a t h k f =
    ap (λ p. (cut b'?' p.0).1) (cut-Free b'#' a (b'?' ∷ external_query t) h)
    ∙ ap (λ p. (cut b'?' (a ++ b'?' ∷ external_query p.0)).1) (cut-Free_whole b'#' t f)
    ∙ ap (λ p. p.1) (cut-Free b'?' a (b'?' ∷ external_query t) k)

parse_query-external :
    (t v : List ℕ)
    → Free b'&' t
    → query_unescape t ≡ some v
    → parse_query (external_query t)
      ≡ (some (units "redirect"), some (units "true")) ∷ (some (units "return"), some v) ∷ []
unfolding parse_query query_unescape unescape_from
parse_query-external t v f e = rw (pieces-Free b'&' t f) (rw e refl)

separated :
    (base provider t : List ℕ)
    → base ++ provider ++ units "?redirect=true" ++ units "&return=" ++ t
      ≡ (base ++ provider) ++ b'?' ∷ external_query t
separated base provider t =
    append_assoc ((base ++ provider) ++ units "?redirect=true") (units "&return=") t
    ∙ append_assoc (base ++ provider) (units "?redirect=true") (units "&return=" ++ t)

hash-Separator : Separator b'#'
unfolding unreserved
hash-Separator = (refl, refl)

and-Separator : Separator b'&'
unfolding unreserved
and-Separator = (refl, refl)

read_external :
    (base provider : List ℕ) (ps : Option (List ℕ))
    → Free b'#' (base ++ provider)
    → Free b'?' (base ++ provider)
    → Valid ps
    → map_option
        (λ url. parse_query (query_of url))
        (map_option
          (λ t. base ++ provider ++ units "?redirect=true" ++ units "&return=" ++ t)
          (map_option (concat_map encode_point) ps))
      ≡ map_option
          (λ ps.
            (some (units "redirect"), some (units "true"))
            ∷ (some (units "return"), some (concat_map utf8 ps))
            ∷ [])
          ps
unfolding query_unescape
read_external base provider none h k v = refl
read_external base provider (some ps) h k v =
    let t = concat_map encode_point ps in
    ap some (
      ap (λ url. parse_query (query_of url)) (separated base provider t)
      ∙ ap parse_query
          (query_of-external (base ++ provider) t h k (concat_map-Free b'#' ps hash-Separator v))
      ∙ parse_query-external t _ (concat_map-Free b'&' ps and-Separator v)
          (unescape_from-points ps v))

-- What the backend reads in the query of the address of an external login: the redirection, and
-- under `return` the UTF-8 bytes of the current page, whatever the path of the page contains. The
-- base URL and the URL of the provider have no `#` and no `?`, and the units of the page are below
-- 65536; no address is made only where the page has a surrogate alone.
pub redirect_url-parse_query :
    (base provider_url origin full_path : List ℕ)
    → Free b'#' (base ++ provider_url)
    → Free b'?' (base ++ provider_url)
    → All (λ u. u < 0x10000) (origin ++ units "/#" ++ full_path)
    → map_option
        (λ url. parse_query (query_of url))
        (redirect_url base provider_url origin full_path)
      ≡ map_option
          (λ ps.
            (some (units "redirect"), some (units "true"))
            ∷ (some (units "return"), some (concat_map utf8 ps))
            ∷ [])
          (points (origin ++ units "/#" ++ full_path))
unfolding redirect_url encode_uri_component
redirect_url-parse_query base provider_url origin full_path h k v =
    read_external base provider_url (points (origin ++ units "/#" ++ full_path)) h k
      (points-Valid _ v)
