-- ===== src/Streamer/Touch.antt =====
-- A read of a stream with a TTL slides its deadline: `ttlRefreshOps` and `refreshTTLOnRead` of
-- internal/ds/streamer.go. `now` is the time in seconds.
pub mod Refreshed
mod Tests
use yasdb.Prelude.{
  ℕ, ◌+◌, ◌%◌, ◌^◌, Bool, true, false, ◌&&◌, not, Option, none, some, List, [], ◌∷◌, ◌++◌, ltb,
  ◌==◌, if◌then◌else◌, Result, ok, err,
}
use yasdb.Keys.{expiry_key, meta_key}
use yasdb.Wire.{u64_value}
use yasdb.Meta.{StreamMeta, marshal}
use yasdb.Storage.{Storage, Op, put, delete}
use yasdb.Streamer.{Streamer, granularity}

unfoldable pub slid_deadline : ℕ → StreamMeta → ℕ
slid_deadline now m = ((now + m.ttl_seconds) % 2 ^ 64 + granularity m.ttl_seconds) % 2 ^ 64

-- Whether the deadline is to be written again.
unfoldable pub is_due : ℕ → StreamMeta → Bool
is_due now m = not (m.ttl_seconds == 0) && not (ltb ((now + m.ttl_seconds) % 2 ^ 64) m.deadline)

unfoldable pub slide_ops : ℕ → StreamMeta → ℕ → List Op
slide_ops id m deadline =
    put (expiry_key deadline id) (u64_value m.ttl_seconds)
    ∷ (if ltb 0 m.deadline && not (m.deadline == deadline)
        then delete (expiry_key m.deadline id) ∷ []
        else [])

-- The operations, and the metadata with the new deadline; `none` is the source's nil.
unfoldable pub ttl_refresh_ops : ℕ → ℕ → StreamMeta → Option (List Op × StreamMeta)
unfolding slid_deadline is_due slide_ops
ttl_refresh_ops now id m =
    let deadline = slid_deadline now m in
    if is_due now m then some (slide_ops id m deadline, record m { deadline = deadline }) else none

module _ (store : Storage) where
  open store use {Db, commit}

  -- If the commit fails the deadline is taken back.
  after_refresh : Streamer → StreamMeta → Result (Unit {0}) × Db → Db × Streamer
  after_refresh s m (ok u, db) = (db, record s { meta = m })
  after_refresh s m (err e, db) = (db, s)

  refresh_with : Db → Streamer → Option (List Op × StreamMeta) → Db × Streamer
  unfolding after_refresh
  refresh_with db s none = (db, s)
  refresh_with db s (some (ops, m)) =
      after_refresh s m (commit db (ops ++ (put (meta_key s.path) (marshal m) ∷ [])) false)

  unfoldable pub refresh_ttl_on_read : Db → ℕ → Streamer → Db × Streamer
  unfolding refresh_with
  refresh_ttl_on_read db now s = refresh_with db s (ttl_refresh_ops now s.id s.meta)
