-- ===== src/Tests/Statuses.antt =====
-- Tests of the conditions.
use certificate_job_operator.Prelude.{[], ◌∷◌, ==_iff, arith}
use certificate_job_operator.Status.Conditions.{status_of, SetsStatus}
use certificate_job_operator.Tests.{replace_condition}

pub replace_condition-SetsStatus : SetsStatus replace_condition
unfolding status_of
replace_condition-SetsStatus [] c type = ground arith
replace_condition-SetsStatus (d ∷ ds) c type = ground (
  arith,
  ==_iff d.type c.type,
  ==_iff d.type type,
  ==_iff c.type type,
  replace_condition-SetsStatus ds c type,
)
