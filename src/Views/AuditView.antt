-- ===== src/Views/AuditView.antt =====
-- The view of the audit log (frontend/src/views/AuditView.vue): the load at the start, the search
-- field and the bar of pages, and the badges of the entries.
use wg_portal.Prelude.{String, List, if◌then◌else◌, ◌===◌}
use wg_portal.Audit
use wg_portal.Audit.{AuditStore, AuditEntry}
use wg_portal.Js.{M, Reply}
use wg_portal.Views.Bar.{Control, click}
use wg_portal.Views.Bar.Tables.{audit_table}

-- `onMounted`, up to the request, and its reply.
unfoldable mounted : M AuditStore (Unit {0})
unfolding Audit.load_entries
mounted = Audit.load_entries

unfoldable entries_loaded : Reply (List AuditEntry) → M AuditStore (Unit {0})
unfolding Audit.load_entries_reply
entries_loaded = Audit.load_entries_reply

-- The search field and the bar of pages.
unfoldable click_bar : Control → M AuditStore (Unit {0})
unfolding click
click_bar c = click audit_table c

-- The colour of the badge of an entry.
unfoldable badge : AuditEntry → String
badge e =
    if e.severity === "low"
    then "bg-light"
    else if e.severity === "medium"
    then "bg-warning"
    else "bg-danger"
