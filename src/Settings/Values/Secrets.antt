-- ===== src/Settings/Values/Secrets.antt =====
-- Sanitized values hold no secret field at any depth, and lose nothing else.
use agent_runner_opencode.Prelude.{
  if◌then◌else◌, Bool-cases, eq_of, String, ◌≡◌, refl, ap, ◌∙◌, inl, inr, false, none, some, arith,
  ◌==◌,
}
use agent_runner_opencode.Json.{
  Value, null, boolean, number, text, array, object, Items, nil, cons, Fields, end, field,
  find_field,
}
use agent_runner_opencode.Settings.Values.{
  is_secret_key, sanitize_value, sanitize_items, sanitize_fields,
}

-- No field of the value, at any depth, has a secret key.
abbrev mutual
  pub NoSecret : Value → Type 0
  NoSecret (object fs) = NoSecretFields fs
  NoSecret (array xs) = NoSecretItems xs
  NoSecret null = Unit
  NoSecret (boolean b) = Unit
  NoSecret (number n) = Unit
  NoSecret (text s) = Unit

  pub NoSecretItems : Items → Type 0
  NoSecretItems nil = Unit
  NoSecretItems (cons v xs) = NoSecret v × NoSecretItems xs

  pub NoSecretFields : Fields → Type 0
  NoSecretFields end = Unit
  NoSecretFields (field k v fs) = (is_secret_key k ≡ false) × NoSecret v × NoSecretFields fs

keep_field :
    (k : String) (v : Value) (fs gs : Fields)
    → NoSecret v
    → NoSecretFields gs
    → NoSecretFields (if is_secret_key k then gs else field k v gs)
keep_field k v fs gs h hs = elim (Bool-cases (is_secret_key k)) [
  | inl secret ↦ rw secret hs
  | inr open_key ↦ rw open_key (open_key, h, hs)
]

mutual
  unfolding sanitize_value sanitize_items sanitize_fields

  clean_value : (v : Value) → NoSecret (sanitize_value v)
  clean_value (object fs) = clean_fields fs
  clean_value (array xs) = clean_items xs
  clean_value null = tt
  clean_value (boolean b) = tt
  clean_value (number n) = tt
  clean_value (text s) = tt

  clean_items : (xs : Items) → NoSecretItems (sanitize_items xs)
  clean_items nil = tt
  clean_items (cons v xs) = (clean_value v, clean_items xs)

  clean_fields : (fs : Fields) → NoSecretFields (sanitize_fields fs)
  clean_fields end = tt
  clean_fields (field k v fs) =
      keep_field k (sanitize_value v) fs (sanitize_fields fs) (clean_value v) (clean_fields fs)

mutual
  unfolding sanitize_value sanitize_items sanitize_fields

  same_value : (v : Value) → NoSecret v → sanitize_value v ≡ v
  same_value (object fs) h = ap object (same_fields fs h)
  same_value (array xs) h = ap array (same_items xs h)
  same_value null h = refl
  same_value (boolean b) h = refl
  same_value (number n) h = refl
  same_value (text s) h = refl

  same_items : (xs : Items) → NoSecretItems xs → sanitize_items xs ≡ xs
  same_items nil h = refl
  same_items (cons v xs) h = cc (same_value v h.0, same_items xs h.1)

  same_fields : (fs : Fields) → NoSecretFields fs → sanitize_fields fs ≡ fs
  same_fields end h = refl
  same_fields (field k v fs) h = rw h.0 (cc (same_value v h.1, same_fields fs h.2))

-- What is left after sanitizing holds no secret key at any depth.
pub sanitize_value-NoSecret : (v : Value) → NoSecret (sanitize_value v)
sanitize_value-NoSecret v = clean_value v

-- A value without secret keys passes through unchanged.
pub sanitize_value_same : (v : Value) → NoSecret v → sanitize_value v ≡ v
sanitize_value_same v h = same_value v h

-- Sanitizing twice is sanitizing once.
pub sanitize_value_idem : (v : Value) → sanitize_value (sanitize_value v) ≡ sanitize_value v
sanitize_value_idem v = same_value (sanitize_value v) (clean_value v)

-- A field whose key is no secret is found after sanitizing, sanitized itself, exactly where it was
-- found before.
pub find_field-sanitize :
    (k : String) (fs : Fields)
    → is_secret_key k ≡ false
    → find_field k (sanitize_fields fs)
      ≡ elim (find_field k fs) [ none ↦ none | some v ↦ some (sanitize_value v) ]
unfolding sanitize_fields
find_field-sanitize k end h = refl
find_field-sanitize k (field j v fs) h = elim (Bool-cases (j == k)) [
  | inl here ↦
      let same : j ≡ k = eq_of j k here in
      let kept : is_secret_key j ≡ false = ap is_secret_key same ∙ h in rw (kept, here)
  | inr there ↦ ground (arith, there, find_field-sanitize k fs h)
]
