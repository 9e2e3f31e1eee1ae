-- ===== src/Remediation/Catalog/Tests.antt =====
-- The catalog at concrete inputs.
use engineering_intelligence.Base.{◌≡◌, refl, false, []}
use engineering_intelligence.Base.Result.{raised}
use engineering_intelligence.Remediation.Catalog.{Runbook, register, not_reversible}
use engineering_intelligence.Remediation.Samples.{restart}

abbrev irreversible : Runbook
irreversible = record restart { reversible = false }

refuses_irreversible : register irreversible [] ≡ raised not_reversible
unfolding register
refuses_irreversible = refl
