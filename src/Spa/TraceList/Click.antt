-- ===== src/Spa/TraceList/Click.antt =====
-- From a row of the table to the view of its trace: the attribute that `esc` writes, as the
-- browser reads it, and the router.
use trace_graph.Base.{ℕ, ◌≢◌, ◌≤◌}

-- A character that the browser leaves as it is in the fragment of an address.
abbrev pub IsFragmentChar : ℕ → Type 0
IsFragmentChar c = (33 ≤ c) × (c ≤ 126) × (c ≢ b'"') × (c ≢ b'<') × (c ≢ b'>') × (c ≢ b'`')
