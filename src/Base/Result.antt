-- ===== src/Base/Result.antt =====
-- Exceptions as values: code that may raise and changes no state.
use Prim.Native.String.{String}
use mathlib.Core.Path.{◌≡◌, refl}
use mathlib.Core.Bool.{Bool, true, false}

-- The exception classes of the program with what they carry: a message, or a code and a detail.
-- `raised` is any other Exception, by the qualified name of its type, and `base_raised` any
-- BaseException that is no Exception, but UnresolvedExecutionOwnership.
pub data Error : Type 0 where
  value_error type_error raised : String → Error
  resolution_error admission_error provenance_error : String → String → Error
  message_error cycle_error memory_error : String → String → Error
  os_error : Error
  unresolved_ownership base_raised : String → Error

pub data Result {ℓ} (A : Type ℓ) : Type ℓ where
  ok : A → Result A
  err : Error → Result A

module _ {ℓ κ} {T : Type ℓ} {U : Type κ} where
  -- What follows an exception is not reached.
  abbrev pub ◌>>=◌ : Result T → (T → Result U) → Result U
  ok value >>= next = next value
  err raised_error >>= next = err raised_error

  infixl 5 ◌>>=◌ ◌>>◌
  abbrev pub ◌>>◌ : Result T → Result U → Result U
  checked >> rest = checked >>= λ _. rest

  -- A sequence that returns: its first part did, and the rest from its value.
  pub >>=-eq-ok :
      (r : Result T) (next : T → Result U) {result : U}
      → (r >>= next) ≡ ok result
      → (value : T) × (r ≡ ok value) × (next value ≡ ok result)
  >>=-eq-ok (ok value) next returned = (value, refl, returned)
  >>=-eq-ok (err e) next returned = cc

-- if test: raise e
abbrev pub raise_if : Bool → Error → Result (Unit {0})
raise_if true e = err e
raise_if false e = ok tt

pub raise_if-eq-ok :
    (test : Bool) (e : Error) {u : Unit {0}} → raise_if test e ≡ ok u → test ≡ false
raise_if-eq-ok false e passed = refl
raise_if-eq-ok true e passed = cc

-- isinstance(error, Exception)
unfoldable pub is_exception : Error → Bool
is_exception (unresolved_ownership _) = false
is_exception (base_raised _) = false
is_exception _ = true

-- f"{type(error).__module__}.{type(error).__qualname__}"
unfoldable pub exception_type : Error → String
exception_type (value_error _) = "builtins.ValueError"
exception_type (type_error _) = "builtins.TypeError"
exception_type (raised name) = name
exception_type (resolution_error _ _) = "peoplebot.state.StateResolutionError"
exception_type (admission_error _ _) = "peoplebot.admission.AdmissionError"
exception_type (provenance_error _ _) = "peoplebot.provenance.ProvenanceError"
exception_type (message_error _ _) = "peoplebot.messaging.MessageError"
exception_type (cycle_error _ _) = "peoplebot.work_cycle.CycleError"
exception_type (memory_error _ _) = "peoplebot.memory.MemoryError"
exception_type os_error = "builtins.OSError"
exception_type (unresolved_ownership _) = "peoplebot.provenance.UnresolvedExecutionOwnership"
exception_type (base_raised name) = name
