-- ===== src/Cooldown/Tests.antt =====
-- Cooldowns with numbers in unary as the printed form.
use Prim.Native.Char.{code}
use cgov_api.Prelude.{
  [], ℕ, zero, suc, ◌==◌, ◌≡◌, ◌≢◌, refl, Option, none, some, String, ◌∷◌, if◌then◌else◌,
}
use cgov_api.Prelude.Int.{pos, negsuc}
use cgov_api.Json.{JsValue, undefined, number, fraction}
use cgov_api.Cooldown.{
  normalize_timestamp, Snapshot, Patch, Json, get_koios_shared_cooldown_snapshot, merge_all,
}
use cgov_api.Cooldown.Merging.{snapshot_value, IsJson, merge_all_lem}

abbrev tally_marks : ℕ → String → String
tally_marks zero s = String.◌∷◌ "," s
tally_marks (suc n) s = String.◌∷◌ "1" (tally_marks n s)

abbrev read_marks : String → ℕ × String
read_marks String.[] = (0, "")
read_marks (String.◌∷◌ c s) =
    let rest = read_marks s in if code c == 49 then (suc rest.0, rest.1) else (0, s)

abbrev print_unary : Snapshot → String
print_unary s =
    tally_marks s.backoff_until
      (tally_marks s.pressure_cooldown_until (tally_marks s.timeout_cooldown_until s.updated_at))

abbrev parse_unary : String → Option JsValue
parse_unary text =
    let (backoff, t) = read_marks text in
    let (pressure, u) = read_marks t in
    let (timeout, v) = read_marks u in
    some (
      snapshot_value (record {
        backoff_until = backoff;
        pressure_cooldown_until = pressure;
        timeout_cooldown_until = timeout;
        updated_at = v;
      }))

abbrev unary : Json
unary = record { parse = parse_unary; print = print_unary; floor = λ t. pos 7; time_zero = "1970" }

marks_read : (n : ℕ) (s : String) → read_marks (tally_marks n s) ≡ (n, s)
marks_read zero s = refl
marks_read (suc n) s = rw (marks_read n s) refl

marks_not_empty : (n : ℕ) (s : String) → tally_marks n s ≢ ""
marks_not_empty zero s e = cc
marks_not_empty (suc n) s e = cc

unary-IsJson : IsJson unary
unary-IsJson = record {
  reads_printed = λ s.
      rw
        (
          marks_read s.backoff_until _,
          marks_read s.pressure_cooldown_until _,
          marks_read s.timeout_cooldown_until s.updated_at,
        )
        refl;
  prints_text = λ s. marks_not_empty s.backoff_until _;
}

abbrev source_text : String → String
source_text s = s

abbrev quiet : Patch
quiet = record {
  backoff_until = number (pos 9);
  pressure_cooldown_until = undefined;
  timeout_cooldown_until = fraction "7.5";
  source = some "api";
}

abbrev shorter : Patch
shorter = record quiet { backoff_until = number (negsuc 3) }

merge_all_lem_example :
    let after =
      get_koios_shared_cooldown_snapshot unary
        (merge_all unary source_text none ((quiet, "2026") ∷ (shorter, "2027") ∷ [])) in
    (after.backoff_until ≡ 9)
    × (after.pressure_cooldown_until ≡ 0)
    × (after.timeout_cooldown_until ≡ 7)
unfolding get_koios_shared_cooldown_snapshot normalize_timestamp
merge_all_lem_example =
    merge_all_lem unary unary-IsJson source_text none ((quiet, "2026") ∷ (shorter, "2027") ∷ [])
