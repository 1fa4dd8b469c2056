-- ===== src/Prelude/Errors.antt =====
-- Go's `(value, error)` results, and the errors that the program names.
use Prim.Native.Nat.{ℕ}

-- `engine` is an error that the storage engine returns.
pub data Err : Type 0 where
  bad_meta bad_offset invalid_json empty_array store_closed gone not_found : Err
  engine : ℕ → Err

pub data Result {ℓ} (Value : Type ℓ) : Type ℓ where
  ok : Value → Result Value
  err : Err → Result Value

-- `if err != nil { return err }` and what follows it.
infixl 5 ◌>>=◌
abbrev pub ◌>>=◌ {ℓ κ} :
    {Value : Type ℓ} {Next : Type κ} → Result Value → (Value → Result Next) → Result Next
m >>= next = elim m [ ok value ↦ next value | err failure ↦ err failure ]
