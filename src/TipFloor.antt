-- ===== src/TipFloor.antt =====
-- The cached tip floor, src/state/tip_floor.rs: its value while it is fresh. The lock is a cell; the
-- streams that fill it are outside the model, and `Instant::now()` is an argument, in nanoseconds.
use engine_mev.Base.{ℕ, ◌-◌, Option, none, some, ltb, if◌then◌else◌}

pub record TipFloorInfo : Type 0 where
  pub p50_lamports : ℕ
  pub p75_lamports : ℕ
  pub ema_p50_lamports : ℕ
  pub fetched_at : ℕ

-- `RwLock<Option<TipFloorInfo>>`.
abbrev pub TipFloorCache : Type 0
TipFloorCache = Option TipFloorInfo

-- `STALE_THRESHOLD`, 30 seconds.
abbrev pub stale_threshold : ℕ
stale_threshold = 30_000_000_000

unfoldable pub update : TipFloorInfo → TipFloorCache → TipFloorCache
update info c = some info

unfoldable pub get_floor_lamports : ℕ → TipFloorCache → Option ℕ
get_floor_lamports now none = none
get_floor_lamports now (some info) =
    if ltb (now - info.fetched_at) stale_threshold then some info.ema_p50_lamports else none

unfoldable pub get_competitive_floor_lamports : ℕ → TipFloorCache → Option ℕ
get_competitive_floor_lamports now none = none
get_competitive_floor_lamports now (some info) =
    if ltb (now - info.fetched_at) stale_threshold then some info.p75_lamports else none
