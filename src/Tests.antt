-- ===== src/Tests.antt =====
-- The theorems at concrete inputs: the lists, the stores, the signed-in user, the requests, the
-- dialogs with their buttons and inputs, the pages and the links between them, the passkeys, and the
-- views.
mod Passkeys
mod Dialogs
mod Buttons
mod Views
mod Lists
mod Stores
mod Session
mod Requests
mod Pages
mod Forms
mod Links
