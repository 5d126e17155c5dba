-- ===== src/Lib.antt =====
-- Verification of the frontend of WireGuard Portal (frontend/src): the stores that hold what the
-- backend answered, the session of the signed-in user, the navigation guards, the wrapper of the
-- requests, and the dialogs and views with their forms, tables and links.
--
-- The program. Each page of the web interface reads the getters of a few stores and calls their
-- actions (frontend/src/stores). An action sets `fetching`, sends a request by apiWrapper
-- (frontend/src/helpers/fetch-wrapper.js), and handles the reply or the error. Identifiers are put
-- into the paths by base64_url_encode (frontend/src/helpers/encoding.js) and read back by the
-- backend (internal/app/api/v0/handlers/encoding.go). The wrapper takes the CSRF token from the
-- security store and the user from the auth store, and signs the user out on a 401 or 403. The
-- router asks the auth store before a navigation (frontend/src/router/index.js) and has the security
-- store renew the token after one. The peer store asks the interface store for the selected
-- interface, the profile store asks the auth store for the user. A dialog (frontend/src/components)
-- fills a form from a store and hands it back to an action; a view (frontend/src/views, App.vue)
-- loads the stores and shows their getters.
--
-- The model. An action is a computation over the store and a log of its visible effects (Js); it
-- ends with a value, a thrown value, or not at all. It is cut where it waits: `load_users` is what
-- runs up to the request, `load_users_reply` what runs on the reply, so other steps can come in
-- between. The names are those of the source in the spelling of this library (LoadUsers, setUsers).
--   Prelude: shared names, Boolean tests, lists, texts, integers.
--   Js: computations, arrays, records found by a text (Js.Keyed), sorting (Js.Sort), the paging that
--     users.js, peers.js, profile.js and audit.js repeat word for word (Js.Paging).
--   Models: frontend/src/helpers/models.js. Helpers: ipToBigInt of frontend/src/helpers/utils.js.
--   Encoding: frontend/src/helpers/encoding.js and the decoder of the backend; in Uri,
--     encodeURIComponent of the browser and the reading of a query.
--   Users, Peers, Interfaces, Profile, Audit, Security, Settings, Auth: the file of
--     frontend/src/stores with that name; state and synchronous code in the module itself, what calls
--     the backend in its child Requests, sessions of events in its child Events.
--   Router: frontend/src/router/index.js. FetchWrapper: frontend/src/helpers/fetch-wrapper.js.
--   Dialogs: frontend/src/components. What they share is in the module itself, the
--     handler of a button that works once at a time, and in Tags, the fields of tags. Sessions is
--     the interface of a dialog that saves and deletes: its operations, the laws that it owes, its
--     sessions, and the theorems that every such dialog gets (Laws); PeerForm, InterfaceEdit and
--     UserEdit implement it. PeerForm is common to PeerEditModal.vue and UserPeerEditModal.vue
--     (children PeerEdit and UserPeerEdit); InterfaceEdit, UserEdit, PeerMultiCreate and PeerView
--     are the dialogs of these names, Details those that only show an interface or a user, Contents
--     what is on the page of those that show a peer or a user, Confirmation the question, and Modal
--     the frame of them all. Forms is how a template reads its inputs; the children Inputs have the
--     inputs of a template, with the conditions under which each is on the page.
--   Views: frontend/src/views and App.vue. InterfaceView with Addresses, Window, Overview, Headings,
--     Rows and Opened, ProfileView and Users with Selection and Expiry, AuditView, KeyGenerator,
--     Passkeys and ApiCard (SettingsView.vue), Start and Menu (App.vue, HomeView.vue), Texts
--     (frontend/src/main.js, frontend/src/lang/index.js). Bar is the search field and the bar of
--     pages that four views repeat: it works on any store with a pager (Bar.Table), and Bar.Tables
--     has the four stores.
--   Login: frontend/src/views/LoginView.vue, with Sessions for the page over time. Datetime,
--     Validators: the files of frontend/src/helpers with these names.
--   Tests: the theorems at concrete inputs.
--
-- Bounds. The loop of calculatePages runs on fuel, one more than the number of items. That is enough
-- for every positive page size (Js.Paging.Numbers.page_numbers_lem); with page size 0 the source
-- loops without end, and so the model gives no store. Numbers are natural numbers and integers
-- without bounds: the source uses doubles, which are exact for the counts and offsets here. The
-- current page is given only where the offset is a multiple of the page size. The padding loop of the
-- key generator has fuel for three rounds, which is enough for every field of a JSON web key. The
-- loop that numbers the window of pages runs once for each number. A number that is entered in a form
-- is a natural number; a field of numbers that is emptied is not modelled.
--
-- Sharing. The settings of the form of a peer are the objects of the peer that it was filled from.
-- The state of the dialog says whose they are, and each edit is written through to that peer. A list
-- of peers that is replaced while the dialog is open is not modelled.
--
-- Parameters. The package ip-address gives the numbers of addresses; the base URL is a constant of
-- the build; is-cidr and is-ip give the tests of the validators; fetch and the WebAuthn API of the
-- browser give replies, and so do the keys and random bytes of its crypto API. How Date reads and
-- prints a timestamp is given too. A date text is the number of its day, and the time zone has one
-- offset. btoa is defined on code units.
--
-- Not modelled: the layout and the titles, the translations, the clipboard of the browser,
-- humanFileSize (floating-point logarithms), console output, what the stores' requests carry, and
-- the backend except for its decoder of identifiers. A stored JSON text is its object. That a response of the
-- status 401 or 403 signs the user out is modelled in the wrapper, and where a view reads the user
-- again after a load (App.vue, ProfileView.vue, SettingsView.vue). Of a thrown
-- value only its text is kept. The comparison of a value with null is taken to be false; the sorted
-- list is promised to be in order only where no value is null.
pub mod Prelude
pub mod Js
pub mod Models
pub mod Encoding
pub mod Users
pub mod Audit
pub mod Security
pub mod Settings
pub mod Interfaces
pub mod Peers
pub mod Profile
pub mod Auth
pub mod Router
pub mod FetchWrapper
pub mod Helpers
pub mod Datetime
pub mod Dialogs
pub mod Views
pub mod Validators
pub mod Login
pub mod Tests
