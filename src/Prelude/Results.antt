-- ===== src/Prelude/Results.antt =====
-- Python calls that return or raise.
use Prim.Native.Nat.{ℕ, zero, suc}
use mathlib.Core.Path.{◌≡◌, refl}
use mathlib.Core.Bool.{Bool, true, false}
use mathlib.Core.List.{List, [], ◌∷◌}

-- The exception classes that the modelled code raises itself.
pub data Exception : Type 0 where
  value_error key_error index_error zero_division_error os_error assertion_error
        not_implemented_error type_error stop_iteration runtime_error unbound_local_error :
      Exception

-- A call returned a value, or an exception left it.
pub data Result {ℓ} (R : Type ℓ) : Type ℓ where
  ok : R → Result R
  raise : Exception → Result R

-- A statement for its effect: nothing, or an exception.
abbrev pub Check : Type 0
Check = Result (Unit {0})

-- `if test: raise error`.
abbrev pub raise_if : Bool → Exception → Check
raise_if false error = ok tt
raise_if true error = raise error

infixl 5 ◌>>=◌
abbrev pub ◌>>=◌ {a b} : {R : Type a} {S : Type b} → Result R → (R → Result S) → Result S
raise error >>= continue = raise error
ok value >>= continue = continue value

infixl 5 ◌>>◌
abbrev pub ◌>>◌ {b} : {S : Type b} → Check → Result S → Result S
raise error >> following = raise error
ok value >> following = following

-- A chain that returned has returned at its first call.
pub >>=-ok_parts {a b} :
    {R : Type a} {S : Type b} {s : S} (call : Result R) (continue : R → Result S)
    → (call >>= continue) ≡ ok s
    → (r : R) × (call ≡ ok r) × (continue r ≡ ok s)
>>=-ok_parts (raise error) continue returned = cc
>>=-ok_parts (ok value) continue returned = (value, refl, returned)

-- A call for each item, in order, up to the first that raises.
abbrev pub each {a b} : {R : Type a} {S : Type b} → (R → Result S) → List R → Result (List S)
each call [] = ok []
each call (r ∷ rs) = call r >>= λ s. each call rs >>= λ ss. ok (s ∷ ss)

-- `xs[i]`.
abbrev pub index {a} : {R : Type a} → List R → ℕ → Result R
index [] i = raise index_error
index (x ∷ xs) zero = ok x
index (x ∷ xs) (suc i) = index xs i
