-- ===== src/Custody/Errors.antt =====
-- src/request_custody.rs: `CustodyError`, without its messages, the results that carry it, and the
-- digests by which requests and bindings are named.
use agent_runner_opencode.Prelude.{
  leb, eqb, if◌then◌else◌, length, any, all, codes, ℕ, String, ◌≡◌, refl, Bool, true, ◌&&◌, ◌||◌,
  not, List, [], ◌∷◌, ◌==◌,
}

pub data CustodyError : Type 0 where
  io invalid migration capacity : CustodyError

pub data CustodyResult {ℓ} (Value : Type ℓ) : Type ℓ where
  err : CustodyError → CustodyResult Value
  ok : Value → CustodyResult Value

-- `if test { return Err(error) }`
abbrev pub refuse_when : Bool → CustodyError → CustodyResult (Unit {0})
refuse_when b error = if b then err error else ok tt

-- The `?` of the source.
abbrev pub and_then {ℓ ℓ'} :
    {Value : Type ℓ} {Rest : Type ℓ'}
    → CustodyResult Value
    → (Value → CustodyResult Rest)
    → CustodyResult Rest
and_then (err error) rest = err error
and_then (ok value) rest = rest value

-- `u8::is_ascii_hexdigit`.
abbrev pub is_ascii_hexdigit : ℕ → Bool
is_ascii_hexdigit c =
    (leb b'0' c && leb c b'9') || (leb b'a' c && leb c b'f') || (leb b'A' c && leb c b'F')

unfoldable pub valid_digest : String → Bool
valid_digest stem = eqb (length (codes stem)) 64 && all is_ascii_hexdigit (codes stem)

-- `HashSet::insert` on every element in turn: is every one of them new?
unfoldable pub all_new : List String → List String → Bool
all_new seen [] = true
all_new seen (x ∷ xs) = not (any (λ y. y == x) seen) && all_new (x ∷ seen) xs

pub ok_inj {ℓ} : {Value : Type ℓ} {x y : Value} → ok x ≡ ok y → x ≡ y
ok_inj h = cc

-- A body that succeeds has succeeded at its first step.
pub and_then-eq-ok {ℓ ℓ'} :
    {Value : Type ℓ} {Rest : Type ℓ'} (first : CustodyResult Value)
    (rest : Value → CustodyResult Rest) {answer : Rest}
    → and_then first rest ≡ ok answer
    → (value : Value) × (first ≡ ok value) × (rest value ≡ ok answer)
and_then-eq-ok (err error) rest h = cc
and_then-eq-ok (ok value) rest h = (value, refl, h)
