-- ===== src/Producer/Once.antt =====
-- Whatever a producer sends and however often it retries, each of its sequence numbers is applied
-- once, in order, and none is skipped.
use yasdb.Prelude.{
  ℕ, suc, ◌^◌, ◌≤◌, ◌<◌, ◌≡◌, refl, ◌⊎◌, inl, inr, Option, none, some, List, [], ◌∷◌, arith, All,
  subst, sym,
}
use mathlib.Core.List.{Memᴰ}
use native.Mathlib.Decide.{dec_le}
use yasdb.Meta.{ProducerState}
use yasdb.Producer.{
  ProducerHeaders, ProducerAction, accept, duplicate, stale_epoch, bad_seq_start, gap,
  validate_producer, fresh_state,
}

-- The state after a request: only an accepted one changes it.
pub after : Option ProducerState → ProducerAction → Option ProducerState
after st (accept ns) = some ns
after st other = st

applied_by : ProducerAction → List (ℕ × ℕ) → List (ℕ × ℕ)
applied_by (accept ns) rest = (ns.epoch, ns.last_seq) ∷ rest
applied_by other rest = rest

-- The (epoch, seq) pairs that a sequence of requests of one producer gets applied.
unfoldable pub applied : Option ProducerState → List ProducerHeaders → List (ℕ × ℕ)
unfolding applied_by after
applied st [] = []
applied st (h ∷ hs) = let act = validate_producer st h in applied_by act (applied (after st act) hs)

-- (d, t) comes right after (e, s): the next number of the epoch, or the first of a later epoch.
abbrev pub Next : ℕ × ℕ → ℕ × ℕ → Type 0
Next (e, s) (d, t) = ((d ≡ e) × (t ≡ suc s)) ⊎ ((e < d) × (t ≡ 0))

abbrev pub NextAfter : Option ProducerState → ℕ × ℕ → Type 0
NextAfter none (d, t) = t ≡ 0
NextAfter (some st) p = Next (st.epoch, st.last_seq) p

-- Each pair comes right after the one before it; the first one, after the state.
abbrev pub IsChain : Option ProducerState → List (ℕ × ℕ) → Type 0
IsChain st [] = Unit
IsChain st ((d, t) ∷ rest) = NextAfter st (d, t) × IsChain (some (fresh_state d t)) rest

-- An accepted request carries the next number, and becomes the state.
pub accept-next :
    (st : Option ProducerState) (h : ProducerHeaders) (ns : ProducerState)
    → h.seq < 2 ^ 64
    → validate_producer st h ≡ accept ns
    → NextAfter st (ns.epoch, ns.last_seq) × (ns ≡ fresh_state h.epoch h.seq)
unfolding validate_producer
accept-next none h ns b e = ground arith
accept-next (some st) h ns b e = ground arith

-- One request in front of a run, by the action taken on it.
applied-step :
    (st : Option ProducerState) (h : ProducerHeaders) (act : ProducerAction) (rest : List (ℕ × ℕ))
    → h.seq < 2 ^ 64
    → validate_producer st h ≡ act
    → IsChain (after st act) rest
    → IsChain st (applied_by act rest)
unfolding applied_by after
applied-step st h (accept ns) rest b e c =
    let (next, fresh) = accept-next st h ns b e in
    (next, subst (λ (s : ProducerState). IsChain (some s) rest) (ground arith) c)
applied-step st h duplicate rest b e c = c
applied-step st h (stale_epoch n) rest b e c = c
applied-step st h bad_seq_start rest b e c = c
applied-step st h (gap m n) rest b e c = c

-- For every sequence of requests of one producer, with numbers below 2 ^ 64, retries and
-- reorderings included, the pairs that are applied form a chain: within an epoch the numbers go up
-- by one, and a later epoch starts at 0.
pub applied-IsChain :
    (st : Option ProducerState) (hs : List ProducerHeaders)
    → All (λ (h : ProducerHeaders). h.seq < 2 ^ 64) hs
    → IsChain st (applied st hs)
unfolding applied
applied-IsChain st [] b = tt
applied-IsChain st (h ∷ hs) b =
    let act = validate_producer st h in
    applied-step st h act (applied (after st act) hs) b.0 refl
      (applied-IsChain (after st act) hs b.1)

-- The state that a run leaves.
unfoldable pub final : Option ProducerState → List ProducerHeaders → Option ProducerState
unfolding after
final st [] = st
final st (h ∷ hs) = final (after st (validate_producer st h)) hs

-- Every number up to the last one of the epoch satisfies P.
Covers : (ℕ × ℕ → Type 0) → Option ProducerState → Type 0
Covers P none = Unit
Covers P (some st) = (q : ℕ) → q ≤ st.last_seq → P (st.epoch, q)

duplicate-covered :
    (P : ℕ × ℕ → Type 0) (st : Option ProducerState) (h : ProducerHeaders)
    → Covers P st
    → validate_producer st h ≡ duplicate
    → P (h.epoch, h.seq)
unfolding validate_producer Covers
duplicate-covered P none h c e = ground arith
duplicate-covered P (some st) h c e =
    let same : st.epoch ≡ h.epoch = ground arith in
    subst (λ n. P (n, h.seq)) same (c h.seq (ground arith))

accept-Covers :
    (P : ℕ × ℕ → Type 0) (st : Option ProducerState) (ns : ProducerState)
    → Covers P st
    → NextAfter st (ns.epoch, ns.last_seq)
    → P (ns.epoch, ns.last_seq)
    → Covers P (some ns)
unfolding Covers
accept-Covers P none ns c n p q h = subst (λ k. P (ns.epoch, k)) (omega arith) p
accept-Covers P (some st) ns c (inr n) p q h = subst (λ k. P (ns.epoch, k)) (omega arith) p
accept-Covers P (some st) ns c (inl n) p q h = elim (dec_le q st.last_seq) [
  | yes below ↦ subst (λ k. P (k, q)) (sym n.0) (c q below)
  | no above ↦ subst (λ k. P (ns.epoch, k)) (omega arith) p
]

Covers-step :
    (P : ℕ × ℕ → Type 0) (st : Option ProducerState) (h : ProducerHeaders) (act : ProducerAction)
    (rest : List (ℕ × ℕ))
    → h.seq < 2 ^ 64
    → validate_producer st h ≡ act
    → Covers P st
    → ((p : ℕ × ℕ) → Memᴰ p (applied_by act rest) → P p)
    → Covers P (after st act) × ((p : ℕ × ℕ) → Memᴰ p rest → P p)
unfolding after applied_by
Covers-step P st h (accept ns) rest b e c all = (
  accept-Covers P st ns c (accept-next st h ns b e).0
      (all (ns.epoch, ns.last_seq) (Memᴰ.head refl)),
  λ p m. all p (Memᴰ.tail m),
)
Covers-step P st h duplicate rest b e c all = (c, all)
Covers-step P st h (stale_epoch n) rest b e c all = (c, all)
Covers-step P st h bad_seq_start rest b e c all = (c, all)
Covers-step P st h (gap m n) rest b e c all = (c, all)

Covers-final :
    (P : ℕ × ℕ → Type 0) (st : Option ProducerState) (hs : List ProducerHeaders)
    → All (λ (h : ProducerHeaders). h.seq < 2 ^ 64) hs
    → Covers P st
    → ((p : ℕ × ℕ) → Memᴰ p (applied st hs) → P p)
    → Covers P (final st hs)
unfolding final applied
Covers-final P st [] b c all = c
Covers-final P st (h ∷ hs) b c all =
    let act = validate_producer st h in
    let (c', all') = Covers-step P st h act (applied (after st act) hs) b.0 refl c all in
    Covers-final P (after st act) hs b.1 c' all'

-- After any run of requests of a new producer, with numbers below 2 ^ 64, a request is answered as
-- a duplicate only if its very epoch and number were applied in that run.
pub duplicate-applied :
    (hs : List ProducerHeaders) (h : ProducerHeaders)
    → All (λ (g : ProducerHeaders). g.seq < 2 ^ 64) hs
    → validate_producer (final none hs) h ≡ duplicate
    → Memᴰ (h.epoch, h.seq) (applied none hs)
unfolding Covers
duplicate-applied hs h b e =
    duplicate-covered (λ p. Memᴰ p (applied none hs)) (final none hs) h
      (Covers-final (λ p. Memᴰ p (applied none hs)) none hs b tt (λ p m. m)) e

-- A retry of an accepted request is a duplicate.
pub retry-duplicate :
    (st : Option ProducerState) (h : ProducerHeaders) (ns : ProducerState)
    → h.seq < 2 ^ 64
    → validate_producer st h ≡ accept ns
    → validate_producer (some ns) h ≡ duplicate
unfolding validate_producer
retry-duplicate none h ns b e = ground arith
retry-duplicate (some st) h ns b e = ground arith
