-- ===== src/Cooldown.antt =====
-- src/services/koios/sharedCoordination.ts: the cooldowns of Koios that the instances share through
-- one row of `sync_status`. Parameters: `JSON.parse`, which is `none` where it throws, the printing of
-- a snapshot by `JSON.stringify`, `Math.floor` of a number that is no integer, the text of the time 0,
-- and the clock as a text.
pub mod Merging
mod Tests
use package.text.Mathlib.Text.{◌==◌ as str_eq}
use cgov_api.Prelude.{
  [], ℕ, max, Bool, false, Option, none, some, String, List, ◌∷◌, ◌or_else◌, if◌then◌else◌,
}
use cgov_api.Prelude.Int.{ℤ, max_zero}
use cgov_api.Json.{JsValue, number, fraction, str, object, get_field}

pub record Snapshot : Type 0 where
  pub backoff_until : ℕ
  pub pressure_cooldown_until : ℕ
  pub timeout_cooldown_until : ℕ
  pub updated_at : String

-- A property that is absent is `undefined`.
pub record Patch : Type 0 where
  pub backoff_until : JsValue
  pub pressure_cooldown_until : JsValue
  pub timeout_cooldown_until : JsValue
  pub source : Option String

-- The row, with the columns that are used here.
pub record Row : Type 0 where
  pub display_name : String
  pub is_running : Bool
  pub backfill_cursor : Option String
  pub error_message : Option String

pub record Json : Type 0 where
  pub parse : String → Option JsValue
  pub print : Snapshot → String
  pub floor : String → ℤ
  pub time_zero : String

abbrev pub display_name : String
display_name = "Koios Shared Coordination"

module _ (json : Json) where
  pub empty_snapshot : Snapshot
  empty_snapshot = record {
    backoff_until = 0;
    pressure_cooldown_until = 0;
    timeout_cooldown_until = 0;
    updated_at = json.time_zero;
  }

  pub normalize_timestamp : JsValue → ℕ
  normalize_timestamp (number z) = max_zero z
  normalize_timestamp (fraction t) = max_zero (json.floor t)
  normalize_timestamp v = 0

  text_or_zero : JsValue → String
  text_or_zero (str s) = s
  text_or_zero v = json.time_zero

  -- Of a value that is no object the properties are undefined, and of `null` they throw.
  snapshot_of : Option JsValue → Snapshot
  unfolding normalize_timestamp text_or_zero empty_snapshot
  snapshot_of (some (object fs)) = record {
    backoff_until = normalize_timestamp (get_field "backoffUntil" fs);
    pressure_cooldown_until = normalize_timestamp (get_field "pressureCooldownUntil" fs);
    timeout_cooldown_until = normalize_timestamp (get_field "timeoutCooldownUntil" fs);
    updated_at = text_or_zero (get_field "updatedAt" fs);
  }
  snapshot_of v = empty_snapshot

  pub parse_cursor : Option String → Snapshot
  unfolding snapshot_of empty_snapshot
  parse_cursor none = empty_snapshot
  parse_cursor (some raw) = if str_eq raw "" then empty_snapshot else snapshot_of (json.parse raw)

  pub build_merged_snapshot : Snapshot → Patch → String → Snapshot
  unfolding normalize_timestamp
  build_merged_snapshot base patch now_iso = record {
    backoff_until = max base.backoff_until (normalize_timestamp patch.backoff_until);
    pressure_cooldown_until =
        max base.pressure_cooldown_until (normalize_timestamp patch.pressure_cooldown_until);
    timeout_cooldown_until =
        max base.timeout_cooldown_until (normalize_timestamp patch.timeout_cooldown_until);
    updated_at = now_iso;
  }

  cursor_of : Option Row → Option String
  cursor_of none = none
  cursor_of (some row) = row.backfill_cursor

  pub get_koios_shared_cooldown_snapshot : Option Row → Snapshot
  unfolding parse_cursor cursor_of
  get_koios_shared_cooldown_snapshot row = parse_cursor (cursor_of row)

  -- `INSERT … ON CONFLICT DO NOTHING`
  inserted : Option Row → Row
  inserted row = row or_else record {
    display_name = display_name;
    is_running = false;
    backfill_cursor = none;
    error_message = none;
  }

  -- `patch.source ? … : undefined`; a column that is undefined is not written.
  message_after : (String → String) → Option String → Option String → Option String
  message_after last_source none old = old
  message_after last_source (some source) old =
      if str_eq source "" then old else some (last_source source)

  -- The transaction, with the row after it and the snapshot that is returned.
  pub merge_koios_shared_cooldown : (String → String) → Option Row → Patch → String → Row × Snapshot
  unfolding parse_cursor build_merged_snapshot inserted message_after
  merge_koios_shared_cooldown last_source row patch now_iso =
      let old = inserted row in
      let merged = build_merged_snapshot (parse_cursor old.backfill_cursor) patch now_iso in
      (
        record {
          display_name = display_name;
          is_running = false;
          backfill_cursor = some (json.print merged);
          error_message = message_after last_source patch.source old.error_message;
        },
        merged,
      )

  -- The row after several merges, each with its clock.
  pub merge_all : (String → String) → Option Row → List (Patch × String) → Option Row
  unfolding merge_koios_shared_cooldown
  merge_all last_source row [] = row
  merge_all last_source row ((patch, now_iso) ∷ patches) =
      merge_all last_source (some (merge_koios_shared_cooldown last_source row patch now_iso).0)
        patches
