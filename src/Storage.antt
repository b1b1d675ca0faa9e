-- ===== src/Storage.antt =====
-- internal/infrastructure/persistence/sql/models.go: what the model of an account makes of a row that
-- is inserted. The GORM tag `default:-1` of the four JetStream limits puts the default in place of
-- the zero value. Queries are left to the repositories' parameters.
use nis.Prelude.{ℕ, zero, suc, ◌*◌, ◌≡◌}
use nis.Entities.{ℤ, pos, negsuc, Account}

abbrev pub stored_limit : ℤ → ℤ
stored_limit (pos zero) = negsuc 0
stored_limit (pos (suc n)) = pos (suc n)
stored_limit (negsuc n) = negsuc n

abbrev pub stored_account : Account → Account
stored_account a = record a {
  jet_stream_max_memory = stored_limit a.jet_stream_max_memory;
  jet_stream_max_storage = stored_limit a.jet_stream_max_storage;
  jet_stream_max_streams = stored_limit a.jet_stream_max_streams;
  jet_stream_max_consumers = stored_limit a.jet_stream_max_consumers;
}

-- A duration in nanoseconds that the column of a key's response TTL, in seconds, can hold.
pub IsWholeSeconds : ℤ → Type 0
IsWholeSeconds (pos n) = (seconds : ℕ) × (n ≡ seconds * 1000000000)
IsWholeSeconds (negsuc n) = (seconds : ℕ) × (suc n ≡ seconds * 1000000000)
