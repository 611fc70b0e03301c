-- ===== src/FailFast/Tests.antt =====
-- An error of the connection at 100, and a circuit that is closed.
use cgov_api.Prelude.{[], ◌≡◌, ◌↔◌, refl, true, List, ◌∷◌}
use cgov_api.Database.{Settings, Circuit, create_semaphore}
use cgov_api.FailFast.{
  includes, includes_any, is_one_of, DbError, FailFastSettings, should_fail_fast_for_db,
  is_db_connectivity_error,
}
use cgov_api.FailFast.Blocking.{Event, asked, failed, happen_all, AnyBlocks, fails_fast_iff}

abbrev settings : FailFastSettings
settings = record { enabled = true; cooldown_ms = 60; to_upper = λ s. s; to_lower = λ s. s }

abbrev resilience : Settings
resilience = record {
  enabled = true;
  retry_max_attempts = 3;
  circuit_threshold = 3;
  circuit_window_ms = 1000;
  circuit_cooldown_ms = 500;
}

abbrev closed : Circuit
closed = record { open_until = 0; failure_timestamps = [] }

abbrev pool_timeout : DbError
pool_timeout = record { code = "P2024"; message = "" }

abbrev reset_by_peer : DbError
reset_by_peer = record { code = ""; message = "connection reset by peer" }

known_code : is_db_connectivity_error settings pool_timeout ≡ true
unfolding is_db_connectivity_error is_one_of includes_any includes
known_code = refl

known_word : is_db_connectivity_error settings reset_by_peer ≡ true
unfolding is_db_connectivity_error is_one_of includes_any includes
known_word = refl

abbrev events : List Event
events = asked 90 closed create_semaphore ∷ failed 100 pool_timeout ∷ []

fails_fast_iff_example :
    ((should_fail_fast_for_db settings resilience 150 closed create_semaphore
        (happen_all settings resilience 0 events)).0
      ≡ true)
    ↔ ((settings.enabled ≡ true)
        × AnyBlocks settings resilience 150 (asked 150 closed create_semaphore ∷ events))
fails_fast_iff_example = fails_fast_iff settings resilience events 150 closed create_semaphore
