-- ===== src/Server/Spawn.antt =====
-- The lookup of a stream's streamer: `getOrSpawn` of internal/ds/server.go and `newStreamer` of
-- internal/ds/streamer.go. The registry and the lock of the path make a lookup one step.
use yasdb.Prelude.{
  ℕ, Bool, false, ◌&&◌, not, Option, none, some, [], ◌==◌, if◌then◌else◌, Result, ok, err,
}
use yasdb.Prelude.Bytes.{Bytes}
use yasdb.Prelude.Map.{lookup, insert}
use yasdb.Meta.{StreamMeta}
use yasdb.Storage.{Storage}
use yasdb.LiveCache
use yasdb.Streamer.{Streamer}
use yasdb.Server.{Server, load_meta, load_tail_seq}

-- The fields of `Config` that a new streamer reads.
pub record CacheConfig : Type 0 where
  pub disable_live_cache : Bool
  pub max_records : ℕ
  pub max_bytes : ℕ

unfoldable pub new_streamer : CacheConfig → Bytes → StreamMeta → ℕ → Streamer
new_streamer cfg path meta tail_seq = record {
  path = path;
  id = meta.stream_id;
  meta = meta;
  producers = [];
  producer_loaded = [];
  writer_seq = [];
  writer_seq_loaded = false;
  write_tail = tail_seq;
  pending = 0;
  tail = tail_seq;
  closed = meta.closed;
  live_readers = 0;
  wake_requests = 0;
  cache =
      if meta.forked_from == 0 && not cfg.disable_live_cache
      then some (LiveCache.new cfg.max_records cfg.max_bytes)
      else none;
}

module _ (store : Storage) (cfg : CacheConfig) where
  spawned : Server store → Bytes → StreamMeta → Result ℕ → Result (Option Streamer) × Server store
  spawned s path meta (err e) = (err e, s)
  spawned s path meta (ok tail_seq) =
      let st = new_streamer cfg path meta tail_seq in
      (ok (some st), record s { resident = insert path st s.resident })

  spawn_from :
      Server store → Bytes → Result (Option StreamMeta) → Result (Option Streamer) × Server store
  unfolding spawned
  spawn_from s path (err e) = (err e, s)
  spawn_from s path (ok none) = (ok none, s)
  spawn_from s path (ok (some meta)) = spawned s path meta (load_tail_seq store s.db meta.stream_id)

  resident_or : Option Streamer → Server store → Bytes → Result (Option Streamer) × Server store
  unfolding spawn_from
  resident_or (some st) s path = (ok (some st), s)
  resident_or none s path = spawn_from s path (load_meta store s.db path)

  unfoldable pub get_or_spawn : Server store → Bytes → Result (Option Streamer) × Server store
  unfolding resident_or
  get_or_spawn s path = resident_or (lookup path s.resident) s path
