-- ===== src/Public/Answer.antt =====
-- What the plan of an append or a close of the Go API answers: internal/ds/public.go.
use yasdb.Prelude.Bytes.{Bytes}
use yasdb.Offset.{Offset}
use yasdb.Storage.{Storage}
use yasdb.Streamer.{Streamer}
