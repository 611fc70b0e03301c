-- ===== src/Cooldown/Merging.antt =====
-- What is read after cooldowns were merged.
use cgov_api.Prelude.{
  [], ℕ, max, ◌≡◌, ◌≢◌, refl, ◌∙◌, ap, Option, none, some, String, List, ◌∷◌, arith, eq_iff,
}
use cgov_api.Prelude.Int.{pos}
use cgov_api.Json.{JsValue, number, str, object, end, field, get_field}
use cgov_api.Cooldown.{
  false, str_eq, Snapshot, Patch, Row, Json, normalize_timestamp, parse_cursor,
  build_merged_snapshot, cursor_of, get_koios_shared_cooldown_snapshot, merge_koios_shared_cooldown,
  merge_all, inserted,
}

-- The object of a snapshot.
abbrev pub snapshot_value : Snapshot → JsValue
snapshot_value s = object (
    field "backoffUntil" (number (pos s.backoff_until)) (
      field "pressureCooldownUntil" (number (pos s.pressure_cooldown_until)) (
        field "timeoutCooldownUntil" (number (pos s.timeout_cooldown_until))
          (field "updatedAt" (str s.updated_at) end))))

-- `JSON.parse` reads what `JSON.stringify` prints, which is not empty.
pub record IsJson (json : Json) : Type 0 where
  pub reads_printed : (s : Snapshot) → json.parse (json.print s) ≡ some (snapshot_value s)
  pub prints_text : (s : Snapshot) → json.print s ≢ ""

-- The greatest of the cooldown before and those of the patches.
abbrev pub latest : ℕ → List ℕ → ℕ
latest n [] = n
latest n (m ∷ ms) = latest (max n m) ms

module _ (json : Json) (laws : IsJson json) where
  read_back : (s : Snapshot) → parse_cursor json (some (json.print s)) ≡ s
  unfolding parse_cursor get_field
  read_back s = rw (not_empty (json.print s) (laws.prints_text s), laws.reads_printed s) refl
    where
      not_empty : (t : String) → t ≢ "" → str_eq t "" ≡ false
      not_empty t ne = ground (arith, eq_iff t "")

  -- The snapshot that a merge returns is the one that is read from the row it wrote.
  pub merged_snapshot_is_read :
      (last_source : String → String) (row : Option Row) (patch : Patch) (now_iso : String)
      → let (row', merged) = merge_koios_shared_cooldown json last_source row patch now_iso in
        get_koios_shared_cooldown_snapshot json (some row') ≡ merged
  unfolding merge_koios_shared_cooldown get_koios_shared_cooldown_snapshot
  merged_snapshot_is_read last_source row patch now_iso = read_back (
      build_merged_snapshot json (parse_cursor json (inserted json row).backfill_cursor) patch
        now_iso)

  inserted-read :
      (row : Option Row)
      → parse_cursor json (inserted json row).backfill_cursor
        ≡ get_koios_shared_cooldown_snapshot json row
  unfolding inserted get_koios_shared_cooldown_snapshot cursor_of
  inserted-read none = refl
  inserted-read (some row) = refl

  abbrev until : (Patch → JsValue) → List (Patch × String) → List ℕ
  until f [] = []
  until f ((patch, now_iso) ∷ patches) = normalize_timestamp json (f patch) ∷ until f patches

  -- However many patches the instances merge, each cooldown that is read afterwards is the latest of
  -- the one that was read before and of those that the patches name, where a patch that names none, or
  -- no finite number, counts as 0.
  pub merge_all_lem :
      (last_source : String → String) (row : Option Row) (patches : List (Patch × String))
      → let before = get_koios_shared_cooldown_snapshot json row in
        let after =
          get_koios_shared_cooldown_snapshot json (merge_all json last_source row patches) in
        (after.backoff_until ≡ latest before.backoff_until (until (λ p. p.backoff_until) patches))
        × (after.pressure_cooldown_until
            ≡ latest before.pressure_cooldown_until
                (until (λ p. p.pressure_cooldown_until) patches))
        × (after.timeout_cooldown_until
            ≡ latest before.timeout_cooldown_until (until (λ p. p.timeout_cooldown_until) patches))
  unfolding merge_all build_merged_snapshot merge_koios_shared_cooldown
  merge_all_lem last_source row [] = (refl, refl, refl)
  merge_all_lem last_source row ((patch, now_iso) ∷ patches) =
      let (row', merged) = merge_koios_shared_cooldown json last_source row patch now_iso in
      let base = inserted-read row in
      let step =
        merged_snapshot_is_read last_source row patch now_iso
        ∙ ap (λ b. build_merged_snapshot json b patch now_iso) base in
      let (backoff, pressure, timeout) = merge_all_lem last_source (some row') patches in
      (
        backoff ∙ ap (λ s. latest s.backoff_until (until (λ p. p.backoff_until) patches)) step,
        pressure
            ∙ ap
                (λ s.
                  latest s.pressure_cooldown_until (until (λ p. p.pressure_cooldown_until) patches))
                step,
        timeout
            ∙ ap
                (λ s.
                  latest s.timeout_cooldown_until (until (λ p. p.timeout_cooldown_until) patches))
                step,
      )
