-- ===== src/LiveCache/Reaches.antt =====
-- A read that the window serves reaches the tail: `tryRead` of internal/ds/livecache.go.
use yasdb.Prelude.{
  ℕ, ◌-◌, ◌≡◌, refl, subst, Bool, true, ◌||◌, not, Option, none, some, List, [], ◌∷◌, ltb, leb,
  ◌==◌, length, if-elim,
}
use yasdb.Prelude.Bytes.{Bytes}
use yasdb.Offset.{Offset, tail_offset}
use yasdb.LiveCache.{
  LiveCache, CachedRecord, Served, try_read, try_window, pick, served, past_window, next_seq,
}

-- Only whole reads are served: up to the tail.
Whole : ℕ → Option Served → Type 0
Whole tail none = Unit
Whole tail (some (body, next, up)) = (next ≡ tail_offset tail) × (up ≡ true)

pick-Whole :
    (is_json : Bool) (from to tail limit : ℕ) (recs : List CachedRecord)
    → Whole tail (pick is_json from to tail limit recs)
unfolding pick Whole
pick-Whole is_json from to tail limit recs =
    if-elim (Whole tail) (ltb (length recs) to || leb to from) _ _ (λ t. tt)
      (λ f. if-elim (Whole tail) (leb limit _) _ _ (λ t. tt) (λ g. (refl, refl)))

try_window-Whole :
    (is_json : Bool) (start : Offset) (tail limit : ℕ) (recs : List CachedRecord)
    → Whole tail (try_window is_json start tail limit recs)
unfolding try_window Whole
try_window-Whole is_json start tail limit [] = tt
try_window-Whole is_json start tail limit (r ∷ rs) =
    if-elim (Whole tail) (ltb start.seq r.seq || past_window tail (next_seq (r ∷ rs))) _ _ (λ t. tt)
      (λ f. pick-Whole is_json (start.seq - r.seq) (tail - r.seq) tail limit (r ∷ rs))

served-Whole :
    (tail : ℕ) (c : LiveCache) (o : Option Served) → Whole tail o → Whole tail ((served c o).0)
unfolding served
served-Whole tail c none h = h
served-Whole tail c (some r) h = h

pub try_read-whole :
    (is_json : Bool) (start : Offset) (tail limit : ℕ) (c : LiveCache) {body : Bytes}
    {next : Offset} {up : Bool}
    → (try_read is_json start tail limit c).0 ≡ some (body, next, up)
    → (next ≡ tail_offset tail) × (up ≡ true)
unfolding try_read Whole
try_read-whole is_json start tail limit c {body} {next} {up} h = subst (Whole tail) h (
    if-elim (λ (p : Option Served × LiveCache). Whole tail p.0)
      (not (start.byte == 0) || leb tail start.seq) _ _ (λ t. tt)
      (λ f. served-Whole tail c _ (try_window-Whole is_json start tail limit c.recs)))
