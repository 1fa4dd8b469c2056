-- ===== src/Streamer/Touch/Tests.antt =====
-- A read of a stream with a TTL of a minute, when its deadline is due and before.
use yasdb.Prelude.{◌≡◌, ◌⊎◌, refl, true, false, [], ◌∷◌, arith}
use yasdb.Meta.{StreamMeta}
use yasdb.Storage.Memory.{memory}
use yasdb.Streamer.{Streamer}
use yasdb.Streamer.Touch.{refresh_ttl_on_read, is_due, slid_deadline}
use yasdb.Streamer.Touch.Refreshed.{IsRefreshed, IsIdle, IsRefused, refresh_ttl_on_read-cases}
use yasdb.Server.Spawn.{CacheConfig, new_streamer}

abbrev meta : StreamMeta
meta = record {
  stream_id = 1;
  content_type = b'a' ∷ [];
  ttl_seconds = 60;
  expires_at = 0;
  closed = false;
  created_at_ms = 5;
  is_private = false;
  deadline = 1075;
  forked_from = 0;
  fork_offset = 0;
  fork_byte = 0;
}

abbrev config : CacheConfig
config = record { disable_live_cache = true; max_records = 4; max_bytes = 100 }

abbrev streamer : Streamer
streamer = new_streamer config (b's' ∷ []) meta 3

due_then : (is_due 1014 meta ≡ false) × (is_due 1015 meta ≡ true) × (slid_deadline 1015 meta ≡ 1090)
unfolding is_due slid_deadline
due_then = (refl, refl, refl)

refresh_ttl_on_read-cases_example :
    let r = refresh_ttl_on_read memory [] 1015 streamer in
    IsIdle memory 1015 [] streamer r
    ⊎ (IsRefused memory 1015 [] streamer r ⊎ IsRefreshed 1015 streamer (memory.view r.0) r.1)
unfolding new_streamer
refresh_ttl_on_read-cases_example =
    refresh_ttl_on_read-cases memory [] 1015 streamer (omega arith) (omega arith)
