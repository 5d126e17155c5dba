-- ===== src/Dialogs.antt =====
-- What the dialogs of the frontend share (the scripts of frontend/src/components/*Modal.vue): a
-- button that works at most once at a time, and a field of tags.
pub mod Buttons
pub mod Tags
pub mod Forms
pub mod Sessions
pub mod PeerForm
pub mod PeerEdit
pub mod UserPeerEdit
pub mod InterfaceEdit
pub mod UserEdit
pub mod PeerMultiCreate
pub mod PeerView
pub mod Details
pub mod Contents
pub mod Confirmation
pub mod Modal
use wg_portal.Prelude.{
  String, Option, some, none, [], ◌∷◌, ◌++◌, Bool, true, false, if◌then◌else◌, units,
}
use wg_portal.Encoding.Uri.{encode_uri_component}
use wg_portal.Js.{
  M, reject, type_error, error, emit, click, World, Out, ok, throw, hang, Thrown, text_of, notify,
}

-- A method of a store that a dialog or a view calls, by its end in the store.
abbrev pub returned {ℓ} : {S T : Type 0} {A : Type ℓ} → (T → S → S) → World S → Out T A → Out S A
returned put w (ok a v) = ok a (record { store = put v.store w.store; log = v.log })
returned put w (throw e v) = throw e (record { store = put v.store w.store; log = v.log })
returned put w hang = hang

abbrev pub within {ℓ} : {S T : Type 0} {A : Type ℓ} → (S → T) → (T → S → S) → M T A → M S A
within get put m w = returned put w (m (record { store = get w.store; log = w.log }))

-- Code that reads the identifier of the selected record: a TypeError at undefined.
abbrev pub with_selected :
    {S A : Type 0} → (A → String) → (String → M S (Unit {0})) → Option A → M S (Unit {0})
with_selected key m none = reject type_error
with_selected key m (some a) = m (key a)

module _ {S : Type 0} (busy : S → Bool) (set : Bool → S → S) where
  -- `catch (e) { notify({title, text: e.toString()}) } finally { busy = false }`
  abbrev pub failed : String → Thrown → World S → World S
  failed title e v = record {
    store = set false v.store;
    log = v.log ++ notify title (text_of e) ∷ [];
  }

  -- The end of `try { await … }` where it stops for the reply.
  abbrev pub sent : String → Out S (Unit {0}) → Out S Bool
  sent title (ok _ v) = ok true v
  sent title (throw e v) = ok false (failed title e v)
  sent title hang = hang

  -- `if (busy) return; busy = true; try { await m … }`, up to the request of `m`. The answer says
  -- whether the code now waits for a reply.
  abbrev pub once : String → M S (Unit {0}) → M S Bool
  once title m w =
      if busy w.store then ok false w else sent title (m (record w { store = set true w.store }))

  -- The end of the whole block.
  abbrev pub ended : String → Out S (Unit {0}) → Out S (Unit {0})
  ended title (ok _ v) = ok tt (record v { store = set false v.store })
  ended title (throw e v) = ok tt (failed title e v)
  ended title hang = hang

  -- The rest of the block, on the reply.
  abbrev pub answered : String → M S (Unit {0}) → M S (Unit {0})
  answered title m w = ended title (m w)

-- The click on a link that downloads a text as a file: encodeURIComponent throws where the text has
-- a surrogate alone.
abbrev pub click_download : {S : Type 0} → String → String → M S (Unit {0})
click_download text filename w = elim (encode_uri_component (units text)) [
  | none ↦ throw (error "URIError") w
  | some t ↦ emit (click (units "data:application/octet-stream;charset=utf-8," ++ t) filename) w
]
