-- ===== src/Hitl/Audit.antt =====
-- The audit log: no call removes or changes what was recorded.
use base_line_prox.Base.{◌≡◌, List, ◌++◌, string_eq, codes_eq, nat_eq}
use base_line_prox.Hitl.Types.{Event, Store}

-- the second store's log is the first's, with more behind it
pub record Grows {P D : Type 0} (s t : Store P D) : Type 0 where
  pub more : List (Event D)
  pub grown : t.audit ≡ s.audit ++ more
