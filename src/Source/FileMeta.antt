-- ===== src/Source/FileMeta.antt =====
-- internal/source/rds/fetcher.go: one discovered log file.
use rdstail.Prelude.{ℕ, ◌+◌, ◌*◌, ◌^◌, Bytes, ◌==◌, if◌then◌else◌}
use rdstail.Record.{Time}

pub record FileMeta : Type 0 where
  pub name : Bytes
  pub size : ℕ
  pub last_written_ms : ℕ

-- 1970-01-01, counted from Go's zero time
abbrev pub unix_epoch : Time
unix_epoch = 62135596800 * 10 ^ 9

-- time.UnixMilli
abbrev pub unix_milli : ℕ → Time
unix_milli ms = unix_epoch + ms * 10 ^ 6

-- LastWritten: the zero time if AWS reported none
unfoldable pub last_written : FileMeta → Time
last_written f = if f.last_written_ms == 0 then 0 else unix_milli f.last_written_ms
