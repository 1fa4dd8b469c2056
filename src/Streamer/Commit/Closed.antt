-- ===== src/Streamer/Commit/Closed.antt =====
-- A closed stream stays as it is.
use yasdb.Prelude.{
  ℕ, ◌≡◌, refl, ap, ◌∙◌, Bool, true, false, Option, List, [], ◌∷◌, ==_self, All, Bool-cases, inl,
  inr,
}
use yasdb.Prelude.Bytes.{Bytes}
use yasdb.Storage.{Storage}
use yasdb.Streamer.{AppendReq, AppendResp, Streamer, Pending, Planned}
use yasdb.Streamer.Load.Core.{SameCore, SameCore-refl, SameCore-trans}
use yasdb.Streamer.Plan.{plan_append}
use yasdb.Streamer.Plan.Effects.{Effect, plan_append-Effect}
use yasdb.Streamer.Burst.{plan_burst, plan_batch, no_effect, start_pending}
use yasdb.Streamer.Commit.{run_sync, sync_outcome}

-- No request of the burst was accepted.
abbrev pub AllRefused : List (AppendResp × Bool) → Type 0
AllRefused = All (λ (r : AppendResp × Bool). r.1 ≡ false)

closed_refuses :
    (pend : Pending) (req : AppendReq) (s : Streamer) (p : Planned)
    → Effect pend req s p
    → pend.closed ≡ true
    → p.1 ≡ false
closed_refuses pend req s p e closed = elim (Bool-cases p.1) [
  | inl accepted ↦ absurd (let o : pend.closed ≡ false = e.open_before accepted in cc)
  | inr refused ↦ refused
]

module _ (store : Storage) (parse_media_type : Bytes → Option Bytes) where
  open store use {Db}

  plan_batch-closed :
      (db : Db) (batch : List AppendReq) (pend : Pending) (s : Streamer)
      → pend.closed ≡ true
      → let r = plan_batch store parse_media_type db batch pend s in
        AllRefused r.0 × (r.1 ≡ false) × (r.2 ≡ pend) × SameCore s r.3
  unfolding plan_batch
  plan_batch-closed db [] pend s closed = (tt, refl, refl, SameCore-refl s)
  plan_batch-closed db (req ∷ batch) pend s closed =
      let p : Planned = plan_append store parse_media_type db pend req s in
      let e : Effect pend req s p = plan_append-Effect store parse_media_type db pend req s in
      let refused : p.1 ≡ false = closed_refuses pend req s p e closed in
      let same : p.2 ≡ pend = e.refused refused in
      let ih = plan_batch-closed db batch p.2 p.3 (ap (λ (q : Pending). q.closed) same ∙ closed) in
      ((refused, ih.0), rw (refused, ih.1), ih.2 ∙ same, SameCore-trans s p.3 _ e.core ih.3)

  unchanged_burst :
      (s t : Streamer) (now : ℕ) → s.meta ≡ t.meta → no_effect t (start_pending s now) false ≡ true
  unfolding no_effect
  unchanged_burst s t now same = rw (same, ==_self t.meta.deadline)

  -- On a closed stream no append is accepted, whatever the requests: the store is left as it is, and
  -- the streamer keeps all but its caches.
  pub run_sync-closed :
      (db : Db) (now : ℕ) (batch : List AppendReq) (s : Streamer)
      → s.meta.closed ≡ true
      → let r = run_sync store parse_media_type db now batch s in
        AllRefused r.0 × (r.1 ≡ db) × SameCore s r.2
  unfolding run_sync sync_outcome plan_burst
  run_sync-closed db now batch s closed =
      let r = plan_batch store parse_media_type db batch (start_pending s now) s in
      let (refused, none_closes, same, core) =
        plan_batch-closed db batch (start_pending s now) s closed in
      let nothing : no_effect r.3 r.2 r.1 ≡ true =
        rw (none_closes, same) (unchanged_burst s r.3 now core.meta) in
      rw nothing (refused, refl, core)
