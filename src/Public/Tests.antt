-- ===== src/Public/Tests.antt =====
-- Appends through the Go API to a stream that is in memory, before and after it is closed.
use yasdb.Prelude.{◌≡◌, refl, true, false, Option, none, [], ◌∷◌}
use yasdb.Prelude.Bytes.{Bytes}
use yasdb.Meta.{StreamMeta}
use yasdb.Storage.Memory.{memory}
use yasdb.Streamer.{Pending}
use yasdb.Server.{Server, load_meta, load_tombstone}
use yasdb.Server.Spawn.{CacheConfig}
use yasdb.Public.{err_not_found, raised, info}

abbrev meta : StreamMeta
meta = record {
  stream_id = 1;
  content_type = b'a' ∷ [];
  ttl_seconds = 0;
  expires_at = 0;
  closed = true;
  created_at_ms = 5;
  is_private = false;
  deadline = 0;
  forked_from = 0;
  fork_offset = 0;
  fork_byte = 0;
}

abbrev config : CacheConfig
config = record { disable_live_cache = true; max_records = 4; max_bytes = 100 }

abbrev no_parser : Bytes → Option Bytes
no_parser ct = none

abbrev closed_burst : Pending
closed_burst = record {
  tail = 3;
  closed = true;
  deadline = 0;
  producers = none;
  writer_seq = none;
  record_ops = [];
  now = 9;
}

abbrev empty_server : Server memory
empty_server = record { db = []; next_id = 2; resident = []; deletions = [] }

missing : info memory no_parser empty_server (b's' ∷ []) ≡ raised err_not_found
unfolding info load_tombstone load_meta
missing = refl
