-- ===== src/Producer/Tests.antt =====
-- A producer that retries, skips a number and starts a new epoch.
use yasdb.Prelude.{ℕ, ◌≡◌, refl, none, some, List, [], ◌∷◌, arith}
use mathlib.Core.List.{Memᴰ}
use yasdb.Producer.{ProducerHeaders, duplicate, validate_producer, fresh_state}
use yasdb.Producer.Once.{
  applied, final, IsChain, applied-IsChain, duplicate-applied, retry-duplicate,
}

abbrev request : ℕ → ℕ → ProducerHeaders
request epoch seq = record { id = b'p' ∷ []; epoch = epoch; seq = seq }

abbrev requests : List ProducerHeaders
requests = request 0 0 ∷ request 0 1 ∷ request 0 1 ∷ request 0 3 ∷ request 2 0 ∷ []

applied_run : applied none requests ≡ (0, 0) ∷ (0, 1) ∷ (2, 0) ∷ []
unfolding applied validate_producer
applied_run = refl

applied-IsChain_example : IsChain none (applied none requests)
applied-IsChain_example = applied-IsChain none requests (omega arith)

duplicate-applied_example : Memᴰ (2, 0) (applied none requests)
unfolding final validate_producer
duplicate-applied_example = duplicate-applied requests (request 2 0) (omega arith) refl

retry-duplicate_example : validate_producer (some (fresh_state 0 1)) (request 0 1) ≡ duplicate
unfolding validate_producer
retry-duplicate_example =
    retry-duplicate (some (fresh_state 0 0)) (request 0 1) (fresh_state 0 1) (omega arith) refl
