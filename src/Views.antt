-- ===== src/Views.antt =====
-- The scripts and the templates of the views (frontend/src/views, App.vue), each part in a child: the
-- lists of addresses, the window of page numbers, the bar of pages, the tooltip of an expiry, the
-- selection of rows, the rows and the overview of an interface, what a click opens, the views of an
-- interface, of the user's own peers, of the users and of the audit log, the settings with the
-- passkeys and the API token, the key generator, the menus, the texts and the languages, and the
-- start of the application.
pub mod Addresses
pub mod Window
pub mod KeyGenerator
pub mod Start
pub mod Bar
pub mod ApiCard
pub mod Texts
pub mod Menu
pub mod Headings
pub mod Expiry
pub mod Selection
pub mod InterfaceView
pub mod ProfileView
pub mod Users
pub mod Overview
pub mod Rows
pub mod Opened
pub mod AuditView
pub mod Passkeys
