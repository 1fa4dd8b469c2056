-- ===== src/Live/Eof.antt =====
-- What a live response that says the stream is closed promises: `readLongPoll` and `readSSE` of
-- internal/ds/read.go.
use yasdb.Prelude.{
  ℕ, ◌^◌, ◌<◌, ◌≤◌, ◌≡◌, ◌⊎◌, inl, inr, refl, sym, subst, ap, ◌∙◌, Bool, true, false, not, Option,
  none, some, List, if◌then◌else◌, ok, err, arith, if-elim,
}
use yasdb.Prelude.Bytes.{Bytes}
use yasdb.Offset.{Offset, parse_offset, tail_offset}
use yasdb.Offset.Token.{parse_offset-to_string}
use yasdb.Meta.{StreamMeta}
use yasdb.LiveCache.{LiveCache}
use yasdb.LiveCache.Reaches.{try_read-whole}
use yasdb.Storage.{Storage}
use yasdb.Server.Read.{ReadResult, read_range}
use yasdb.Server.Read.Reaches.{Reaches, read_range-Reaches}
use yasdb.Live.{Reply, Client, write_live_data, write204_closed}
use yasdb.Live.Turn.{
  Seen, Turn, answered, parked, same_offset, long_poll_turn, cache_read, live_read,
}
use yasdb.Live.Published.{Ending, lifetime, ending, atomics_at, seen_at, last_tail, closed-final}

-- The position that a client reads from a response has nothing of the stream behind it.
pub record NamesEnd (last : ℕ) (r : Reply) : Type 0 where
  pub position : Offset
  pub read_back : parse_offset r.stream_next ≡ ok (record { off = position; is_now = false })
  pub end : last ≤ position.seq

-- What a token can hold of a position: two parts of at most 16 digits.
abbrev pub FitsToken : Offset → Type 0
FitsToken o = (o.seq < 10 ^ 16) × (o.byte < 10 ^ 16)

abbrev pub ReadFitsToken : ReadResult → Type 0
ReadFitsToken (err e) = Unit
ReadFitsToken (ok (body, next, up)) = FitsToken next

-- A turn that says closed has seen it, and names a position that is not before the tail it saw.
abbrev Promise : Seen → Turn Reply → Type 0
Promise seen parked = Unit
Promise seen (answered r) =
    (r.stream_closed ≡ false) ⊎ ((seen.closed ≡ true) × NamesEnd seen.tail r)

data-Promise :
    (meta : StreamMeta) (client : Client) (start : Offset) (tail : ℕ) (closed stopped up : Bool)
    (next : Offset) (body : Bytes)
    → FitsToken next
    → (up ≡ false) ⊎ (tail ≤ next.seq)
    → Promise
        (record { tail = tail; closed = closed; stopped = stopped })
        (answered (write_live_data meta start next up closed body client))
unfolding write_live_data
data-Promise meta client start tail false stopped up next body fit h = inl refl
data-Promise meta client start tail true stopped false next body fit h = inl refl
data-Promise meta client start tail true stopped true next body fit (inl e) = cc
data-Promise meta client start tail true stopped true next body fit (inr le) = inr (
  refl,
  record { position = next; read_back = parse_offset-to_string next fit.0 fit.1; end = le },
)

end-Promise :
    (tail : ℕ) (closed stopped : Bool)
    → (closed ≡ true → tail < 10 ^ 16)
    → Promise
        (record { tail = tail; closed = closed; stopped = stopped })
        (if closed then answered (write204_closed tail) else parked)
unfolding write204_closed
end-Promise tail true stopped low = inr (
  refl,
  record {
    position = tail_offset tail;
    read_back = parse_offset-to_string (tail_offset tail) (low refl) (omega arith);
    end = omega arith;
  },
)
end-Promise tail false stopped low = tt

long_poll_turn-Promise :
    (meta : StreamMeta) (client : Client) (start : Offset) (seen : Seen) (read : ReadResult)
    → (seen.closed ≡ true → seen.tail < 10 ^ 16)
    → ReadFitsToken read
    → Reaches seen.tail read
    → Promise seen (long_poll_turn meta client start seen read)
unfolding long_poll_turn
long_poll_turn-Promise meta client start seen (err e) low fit reach = inl refl
long_poll_turn-Promise meta client start seen (ok (body, next, up)) low fit reach =
    if-elim (Promise seen) seen.stopped _ _ (λ t. inl refl)
      (λ f.
        if-elim (Promise seen) (not (same_offset next start)) _ _
          (λ t.
            data-Promise meta client start seen.tail seen.closed seen.stopped up next body fit
              reach)
          (λ g. end-Promise seen.tail seen.closed seen.stopped low))

read-Reaches :
    (tail : ℕ) (body : Bytes) (next : Offset) (up : Bool)
    → next ≡ tail_offset tail
    → Reaches tail (ok (body, next, up))
read-Reaches tail body next up e =
    inr (let s : next.seq ≡ tail = ap (λ (o : Offset). o.seq) e in omega arith)

cached-Reaches :
    (is_json : Bool) (start : Offset) (tail limit : ℕ) (cache : Option LiveCache)
    {served : Bytes × Offset × Bool}
    → (cache_read is_json start tail limit cache).0 ≡ some served
    → Reaches tail (ok served)
unfolding cache_read
cached-Reaches is_json start tail limit none h = cc
cached-Reaches is_json start tail limit (some c) {served} h =
    read-Reaches tail served.0 served.1 served.2 (try_read-whole is_json start tail limit c h).0

module _ (store : Storage) where
  open store use {Db}

  live_read-Reaches :
      (fuel : ℕ) (db : Db) (cache : Option LiveCache) (id forked_from fork_offset : ℕ)
      (is_json : Bool) (start : Offset) (tail limit : ℕ) {r : ReadResult}
      → live_read store fuel db cache id forked_from fork_offset is_json start tail limit ≡ some r
      → Reaches tail r
  unfolding live_read
  live_read-Reaches fuel db cache id forked_from fork_offset is_json start tail limit {r} h =
      go ((cache_read is_json start tail limit cache).0) refl h
    where
      go :
          (o : Option (Bytes × Offset × Bool))
          → (cache_read is_json start tail limit cache).0 ≡ o
          → elim o [
            | some served ↦ some (ok served)
            | none ↦ read_range store fuel db id forked_from fork_offset is_json start tail limit
          ]
            ≡ some r
          → Reaches tail r
      go (some served) e g =
          let same : ok served ≡ r = cc in
          subst (Reaches tail) same (cached-Reaches is_json start tail limit cache e)
      go none e g =
          read_range-Reaches store fuel db id forked_from fork_offset is_json start tail limit g

  -- A long poll that is told that the stream is closed is at its end: the position that the client parses from
  -- the reply is behind every record that the streamer ever accepts. The reader loads the tail behind the first i
  -- stores of the streamer's life and whether it is closed behind the first j, and the tail is the same at both.
  -- The streamer's last tail and both parts of the position that the read comes to have at most 16 digits.
  pub long_poll_turn-NamesEnd :
      (tails : List ℕ) (e : Ending) (first i j : ℕ) (meta : StreamMeta) (client : Client)
      (start : Offset) (fuel : ℕ) (db : Db) (cache : Option LiveCache) (is_json : Bool) (limit : ℕ)
      {read : ReadResult} {r : Reply}
      → (atomics_at (lifetime tails (ending e)) first i).tail
        ≡ (atomics_at (lifetime tails (ending e)) first j).tail
      → live_read store fuel db cache meta.stream_id meta.forked_from meta.fork_offset is_json start
          (seen_at (lifetime tails (ending e)) first i j).tail
          limit
        ≡ some read
      → last_tail (lifetime tails (ending e)) first < 10 ^ 16
      → ReadFitsToken read
      → long_poll_turn meta client start (seen_at (lifetime tails (ending e)) first i j) read
        ≡ answered r
      → r.stream_closed ≡ true
      → NamesEnd (last_tail (lifetime tails (ending e)) first) r
  unfolding seen_at
  long_poll_turn-NamesEnd tails e first i j meta client start fuel db cache is_json limit {read} {r}
        same got low fit turn c =
      elim promise [
        | inl unsaid ↦ absurd (let clash : false ≡ true = sym unsaid ∙ c in cc)
        | inr (closed, names) ↦
            subst (λ n. NamesEnd n r) (same ∙ closed-final tails e first j closed) names
      ]
    where
      seen : Seen
      seen = seen_at (lifetime tails (ending e)) first i j

      low_then : seen.closed ≡ true → seen.tail < 10 ^ 16
      low_then closed = omega (arith, same ∙ closed-final tails e first j closed, low)

      reach : Reaches seen.tail read
      reach =
          live_read-Reaches fuel db cache meta.stream_id meta.forked_from meta.fork_offset is_json
            start _ limit got

      promise : Promise seen (answered r)
      promise =
          subst (Promise seen) turn
            (long_poll_turn-Promise meta client start seen read low_then fit reach)
