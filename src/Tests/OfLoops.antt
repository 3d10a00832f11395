-- ===== src/Tests/OfLoops.antt =====
-- The small runbook in a loop of two rounds.
use runn.Operator.{Loop}

abbrev two_rounds : Loop
two_rounds = record { count = "2"; until = "" }
