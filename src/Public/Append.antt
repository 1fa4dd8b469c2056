-- ===== src/Public/Append.antt =====
-- Appends through the Go API in sync mode: `Append` and `CloseStream` of internal/ds/public.go, over
-- `submitAppend` (server.go) and a burst that has no other request.
use yasdb.Prelude.{ℕ, Bool, Option, List, [], ◌∷◌}
use yasdb.Prelude.Bytes.{Bytes}
use yasdb.Prelude.Map.{insert}
use yasdb.Offset.{Offset}
use yasdb.Storage.{Storage}
use yasdb.Streamer.{Streamer, AppendResp, bare}
use yasdb.Streamer.Commit.{run_sync}
use yasdb.Server.{Server}
use yasdb.Server.Spawn.{CacheConfig}
use yasdb.Public.{Returned, returned, raised, append_request, append_resp_to_offset, append_target}

module _ (store : Storage) (parse_media_type : Bytes → Option Bytes) (cfg : CacheConfig) where
  open store use {Db}

  -- The answer to the one request of a burst.
  only_answer : List (AppendResp × Bool) → AppendResp
  only_answer [] = bare 500
  only_answer ((r, accepted) ∷ rs) = r

  submitted :
      Server store
      → Bytes
      → List (AppendResp × Bool) × Db × Streamer
      → Returned Offset × Server store
  unfolding only_answer
  submitted s path (answers, db, st) = (
    append_resp_to_offset (only_answer answers),
    record s { db = db; resident = insert path st s.resident },
  )

  append_to :
      ℕ
      → Bytes
      → List Bytes
      → Bool
      → Returned Streamer × Server store
      → Returned Offset × Server store
  unfolding submitted
  append_to now path records close_stream (raised e, s) = (raised e, s)
  append_to now path records close_stream (returned st, s) =
      submitted s path
        (run_sync store parse_media_type s.db now (append_request records close_stream st ∷ []) st)

  unfoldable pub append_or_close :
      ℕ → Bytes → List Bytes → Bool → Server store → Returned Offset × Server store
  unfolding append_to
  append_or_close now path records close_stream s =
      append_to now path records close_stream (append_target store parse_media_type cfg s path)
