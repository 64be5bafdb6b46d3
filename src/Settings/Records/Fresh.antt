-- ===== src/Settings/Records/Fresh.antt =====
-- The search for a free identifier of `unique_settings_id`.
use agent_runner_opencode.Prelude.{
  Bool-cases, length, filter, eq_of, ℕ, zero, suc, ◌+◌, ◌≤◌, ◌<◌, String, ◌≡◌, refl, sym, ◌∙◌,
  subst, inl, inr, true, false, not, some, List, [], ◌∷◌, arith, ◌==◌, eq_iff,
}
use agent_runner_opencode.Settings.Store.{SettingsRecord, SettingsStore}
use agent_runner_opencode.Settings.Records.{id_taken, first_free, unique_settings_id}

-- The records that do not have an identifier.
without : String → List SettingsRecord → List SettingsRecord
without id records = filter (λ r. not (r.id == id)) records

length-without-le : (id : String) (rs : List SettingsRecord) → length (without id rs) ≤ length rs
unfolding without
length-without-le id [] = omega arith
length-without-le id (r ∷ rs) = ground (arith, length-without-le id rs)

length-without-lt :
    (id : String) (rs : List SettingsRecord)
    → id_taken rs id ≡ true
    → length (without id rs) < length rs
unfolding without id_taken
length-without-lt id [] h = cc
length-without-lt id (r ∷ rs) h = ground (arith, length-without-le id rs, length-without-lt id rs)

id_taken-without :
    (id other : String) (rs : List SettingsRecord)
    → (id == other) ≡ false
    → id_taken (without id rs) other ≡ id_taken rs other
unfolding without id_taken
id_taken-without id other [] h = refl
id_taken-without id other (r ∷ rs) h =
    ground (arith, eq_iff r.id id, eq_iff r.id other, eq_iff id other, id_taken-without id other rs)

-- The search looks at the records only through the candidates from its attempt on.
first_free_agree :
    (fuel : ℕ) (rs qs : List SettingsRecord) (candidate : ℕ → String) (attempt : ℕ)
    → ((j : ℕ)
        → attempt ≤ j
        → j < attempt + fuel
        → id_taken rs (candidate j) ≡ id_taken qs (candidate j))
    → first_free fuel rs candidate attempt ≡ first_free fuel qs candidate attempt
unfolding first_free
first_free_agree zero rs qs candidate attempt h = refl
first_free_agree (suc fuel) rs qs candidate attempt h = ground (
  arith,
  h attempt (omega arith) (omega arith),
  first_free_agree fuel rs qs candidate (attempt + 1) (λ j le lt. h j (omega arith) (omega arith)),
)

-- What the search answers with is free.
pub first_free_sound :
    (fuel : ℕ) (rs : List SettingsRecord) (candidate : ℕ → String) (attempt : ℕ) (id : String)
    → first_free fuel rs candidate attempt ≡ some id
    → id_taken rs id ≡ false
unfolding first_free
first_free_sound zero rs candidate attempt id h = cc
first_free_sound (suc fuel) rs candidate attempt id h =
    elim (Bool-cases (id_taken rs (candidate attempt))) [
      | inl taken ↦ first_free_sound fuel rs candidate (attempt + 1) id (ground (arith, h, taken))
      | inr free ↦ subst (λ s. id_taken rs s ≡ false) (ground (arith, h, free)) free
    ]

module _ (candidate : ℕ → String) (bound : ℕ)
    (distinct : (i j : ℕ) → i < bound → j < bound → candidate i ≡ candidate j → i ≡ j) where
  differ : (i j : ℕ) → i < j → j < bound → (candidate i == candidate j) ≡ false
  differ i j h lt = elim (Bool-cases (candidate i == candidate j)) [
    | inl same ↦
        absurd
          (omega (arith, distinct i j (omega arith) lt (eq_of (candidate i) (candidate j) same)))
    | inr other ↦ other
  ]

  -- With more attempts than records, one of the distinct candidates is free.
  first_free_enough :
      (fuel : ℕ) (rs : List SettingsRecord) (attempt : ℕ)
      → length rs < fuel
      → attempt + fuel ≤ bound
      → (id : String) × (first_free fuel rs candidate attempt ≡ some id)
  unfolding first_free
  first_free_enough zero rs attempt h room = absurd (omega arith)
  first_free_enough (suc fuel) rs attempt h room =
      elim (Bool-cases (id_taken rs (candidate attempt))) [
        | inl taken ↦
            let fewer : length (without (candidate attempt) rs) < fuel =
              omega (arith, length-without-lt (candidate attempt) rs taken) in
            let (id, found) =
              first_free_enough fuel (without (candidate attempt) rs) (attempt + 1) fewer
                (omega arith) in
            let agree : first_free fuel (without (candidate attempt) rs) candidate (attempt + 1)
                ≡ first_free fuel rs candidate (attempt + 1) =
              first_free_agree fuel (without (candidate attempt) rs) rs candidate (attempt + 1)
                (λ j le lt.
                  id_taken-without (candidate attempt) (candidate j) rs
                    (differ attempt j (omega arith) (omega arith))) in
            (id, rw taken (sym agree ∙ found))
        | inr free ↦ (candidate attempt, rw free)
      ]

-- The identifier search ends: where the first candidates, one more than there are records, are all
-- different, it finds one of them, and no record has it.
pub unique_settings_id_total :
    (candidate : ℕ → String) (store : SettingsStore)
    → ((i j : ℕ)
        → i < length store.records + 1
        → j < length store.records + 1
        → candidate i ≡ candidate j
        → i ≡ j)
    → (id : String) × (unique_settings_id store candidate ≡ some id)
      × (id_taken store.records id ≡ false)
unfolding unique_settings_id
unique_settings_id_total candidate store distinct =
    let bound = length store.records + 1 in
    let (id, found) =
      first_free_enough candidate bound distinct bound store.records 0 (omega arith)
        (omega arith) in
    (id, found, first_free_sound bound store.records candidate 0 id found)
