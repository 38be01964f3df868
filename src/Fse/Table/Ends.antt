-- ===== src/Fse/Table/Ends.antt =====
-- crates/core/src/fse/table_builder.rs: the loop over the cells of the rare symbols, at its own step.
use zrip.Common.{ℕ, ◌-◌, ◌^◌, ◌<◌, ◌≤◌}
use zrip.Fse.Table.{skip_high}
use zrip.Fse.Table.Agree.{step_of}
use zrip.Fse.Table.Skip.{skip_high-low}
use zrip.Fse.Table.Bounds.{step-odd}

-- In a table of 2^n cells, n being at least 5, and with the step (size / 2) + (size / 8) + 3: from any
-- cell, the loop that skips the cells above `high` ends at a cell that is not above it, within as many
-- rounds as the table has cells.
pub skip_high-ends :
    (n high position : ℕ)
    → 5 ≤ n
    → position < 2 ^ n
    → skip_high (2 ^ n) (2 ^ n - 1) (step_of (2 ^ n)) high position ≤ high
skip_high-ends n high position big h =
    skip_high-low n (step_of (2 ^ n)) high (step-odd n big) position h
