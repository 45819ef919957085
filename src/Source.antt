-- ===== src/Source.antt =====
-- internal/source/data.go: what a source hands to the pipeline.
pub mod Laws
use ibdm.Base.{ℕ, String, Bool, List, lookup, is_some, eqb, if◌then◌else◌}
use ibdm.Value.{Fields}

pub data DataOperation : Type 0 where
  upsert delete : DataOperation

-- `time` counts from Go's zero time, so that `IsZero` is the test with 0.
pub record Data : Type 0 where
  pub kind : String
  pub operation : DataOperation
  pub values : Fields
  pub time : ℕ

-- `format` is `UTC().Format(time.RFC3339)` and `now` a reading of the clock.
unfoldable pub timestamp : (ℕ → String) → ℕ → Data → String
timestamp format now d = format (if eqb d.time 0 then now else d.time)

-- _, ok := types[kind]
abbrev pub wants : String → List (String × Fields) → Bool
wants kind types = is_some (lookup kind types)
