-- ===== src/Meta/Tests.antt =====
-- The round trips at concrete values.
use yasdb.Prelude.{◌≡◌, true, false, [], ◌∷◌, ok, arith}
use yasdb.Meta.{StreamMeta, marshal, unmarshal_meta}
use yasdb.Meta.RoundTrip.{unmarshal_meta-marshal}

-- A closed fork of stream 3 with a TTL of one minute.
abbrev fork_meta : StreamMeta
fork_meta = record {
  stream_id = 8;
  content_type = b't' ∷ b'/' ∷ b'x' ∷ [];
  ttl_seconds = 60;
  expires_at = 0;
  closed = true;
  created_at_ms = 1700000000000;
  is_private = false;
  deadline = 1700000061;
  forked_from = 3;
  fork_offset = 5;
  fork_byte = 2;
}

fork_read_back : unmarshal_meta (marshal fork_meta) ≡ ok fork_meta
fork_read_back = unmarshal_meta-marshal fork_meta (omega arith)
