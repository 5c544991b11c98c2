-- ===== src/Dashboard/Consistency.antt =====
-- Whether the dashboard of frontend/js/dashboard.js shows the directory that it is in: over
-- browsing as Browsing has it, with a server whose directories stay the same and which answers in order.
use teilpunkt.Dashboard.State.{Dashboard}
