-- ===== src/Settings/Records/Laws.antt =====
-- What the operations on records change and what they leave alone.
use agent_runner_opencode.Prelude.{
  Bool-cases, get_elem?, find, any, position, eq_of, ℕ, zero, suc, String, ◌≡◌, refl, ap, ◌∙◌,
  subst, inl, inr, true, false, ◌||◌, none, some, List, [], ◌∷◌, ◌++◌, arith, ◌==◌, eq_iff,
}
use agent_runner_opencode.Settings.Store.{SettingsRecord}
use agent_runner_opencode.Settings.Records.{change_at, remove_at, id_taken}

-- No two records have the same identifier.
abbrev pub DistinctIds : List SettingsRecord → Type 0
DistinctIds [] = Unit
DistinctIds (r ∷ rs) = (id_taken rs r.id ≡ false) × DistinctIds rs

-- A change of one record that keeps its identifier keeps which identifiers are taken.
pub id_taken-change_at :
    (f : SettingsRecord → SettingsRecord) (i : ℕ) (rs : List SettingsRecord) (id : String)
    → ((r : SettingsRecord) → (f r).id ≡ r.id)
    → id_taken (change_at f i rs) id ≡ id_taken rs id
unfolding id_taken
id_taken-change_at f i [] id h = refl
id_taken-change_at f zero (r ∷ rs) id h = rw (h r)
id_taken-change_at f (suc i) (r ∷ rs) id h = rw (id_taken-change_at f i rs id h)

pub change_at-DistinctIds :
    (f : SettingsRecord → SettingsRecord) (i : ℕ) (rs : List SettingsRecord)
    → ((r : SettingsRecord) → (f r).id ≡ r.id)
    → DistinctIds rs
    → DistinctIds (change_at f i rs)
change_at-DistinctIds f i [] h d = tt
change_at-DistinctIds f zero (r ∷ rs) h d = (rw (h r) d.0, d.1)
change_at-DistinctIds f (suc i) (r ∷ rs) h d =
    (id_taken-change_at f i rs r.id h ∙ d.0, change_at-DistinctIds f i rs h d.1)

pub id_taken-remove_at :
    (i : ℕ) (rs : List SettingsRecord) (id : String)
    → id_taken rs id ≡ false
    → id_taken (remove_at i rs) id ≡ false
unfolding id_taken
id_taken-remove_at i [] id h = refl
id_taken-remove_at zero (r ∷ rs) id h = ground arith
id_taken-remove_at (suc i) (r ∷ rs) id h = ground (arith, id_taken-remove_at i rs id)

pub remove_at-DistinctIds :
    (i : ℕ) (rs : List SettingsRecord) → DistinctIds rs → DistinctIds (remove_at i rs)
remove_at-DistinctIds i [] d = tt
remove_at-DistinctIds zero (r ∷ rs) d = d.1
remove_at-DistinctIds (suc i) (r ∷ rs) d =
    (id_taken-remove_at i rs r.id d.0, remove_at-DistinctIds i rs d.1)

pub id_taken-append :
    (rs qs : List SettingsRecord) (id : String)
    → id_taken (rs ++ qs) id ≡ (id_taken rs id || id_taken qs id)
unfolding id_taken
id_taken-append [] qs id = refl
id_taken-append (r ∷ rs) qs id = ground (arith, id_taken-append rs qs id)

-- A record with an identifier that is not taken keeps the identifiers distinct.
pub push-DistinctIds :
    (rs : List SettingsRecord) (new : SettingsRecord)
    → id_taken rs new.id ≡ false
    → DistinctIds rs
    → DistinctIds (rs ++ new ∷ [])
unfolding id_taken
push-DistinctIds [] new h d = (refl, tt)
push-DistinctIds (r ∷ rs) new h d = (
  id_taken-append rs (new ∷ []) r.id ∙ ground (arith, d.0, eq_iff r.id new.id, eq_iff new.id r.id),
  push-DistinctIds rs new (ground (arith, h)) d.1,
)

-- The record that an index of a search points at is the first with the identifier.
pub position_record :
    (id : String) (rs : List SettingsRecord) (i : ℕ)
    → position (λ r. r.id == id) rs ≡ some i
    → (r : SettingsRecord) × (get_elem? rs i ≡ some r)
      × (r.id ≡ id)
      × (find (λ q. q.id == id) rs ≡ some r)
position_record id [] i h = cc
position_record id (r ∷ rs) zero h = elim (Bool-cases (r.id == id)) [
  | inl here ↦ (r, refl, eq_of r.id id here, rw here)
  | inr there ↦ absurd (ground (arith, h, there))
]
position_record id (r ∷ rs) (suc i) h = elim (Bool-cases (r.id == id)) [
  | inl here ↦ absurd (ground (arith, h, here))
  | inr there ↦
      let (q, at, named, found) = position_record id rs i (ground (arith, h, there)) in
      (q, at, named, rw there found)
]

-- A search that finds no index finds no record.
pub position-none :
    (id : String) (rs : List SettingsRecord)
    → position (λ r. r.id == id) rs ≡ none
    → id_taken rs id ≡ false
unfolding id_taken
position-none id [] h = refl
position-none id (r ∷ rs) h = ground (arith, position-none id rs)

-- After a change of the record that an identifier's search finds, the search finds the changed one.
pub find-change_at :
    (f : SettingsRecord → SettingsRecord) (id : String) (rs : List SettingsRecord) (i : ℕ)
    (r : SettingsRecord)
    → ((q : SettingsRecord) → (f q).id ≡ q.id)
    → position (λ q. q.id == id) rs ≡ some i
    → find (λ q. q.id == id) rs ≡ some r
    → find (λ q. q.id == id) (change_at f i rs) ≡ some (f r)
find-change_at f id [] i r same p h = cc
find-change_at f id (q ∷ rs) zero r same p h = elim (Bool-cases (q.id == id)) [
  | inl here ↦
      let found : q ≡ r = ground (arith, h, here) in
      let kept : ((f q).id == id) ≡ true = ap (λ s. s == id) (same q) ∙ here in
      rw kept (ap (λ x. some (f x)) found)
  | inr there ↦ absurd (ground (arith, p, there))
]
find-change_at f id (q ∷ rs) (suc i) r same p h = elim (Bool-cases (q.id == id)) [
  | inl here ↦ absurd (ground (arith, p, here))
  | inr there ↦
      rw there
        (find-change_at f id rs i r same (ground (arith, p, there)) (ground (arith, h, there)))
]

-- A change at the index of one identifier leaves what a search for another finds.
pub find-change_at_ne :
    (f : SettingsRecord → SettingsRecord) (id other : String) (rs : List SettingsRecord) (i : ℕ)
    → ((q : SettingsRecord) → (f q).id ≡ q.id)
    → position (λ q. q.id == id) rs ≡ some i
    → (id == other) ≡ false
    → find (λ q. q.id == other) (change_at f i rs) ≡ find (λ q. q.id == other) rs
find-change_at_ne f id other [] i same p h = refl
find-change_at_ne f id other (q ∷ rs) zero same p h = elim (Bool-cases (q.id == id)) [
  | inl here ↦ let apart : (q.id == other) ≡ false = rw (eq_of q.id id here) h in rw (same q, apart)
  | inr there ↦ absurd (ground (arith, p, there))
]
find-change_at_ne f id other (q ∷ rs) (suc i) same p h = elim (Bool-cases (q.id == id)) [
  | inl here ↦ absurd (ground (arith, p, here))
  | inr there ↦ ground (arith, find-change_at_ne f id other rs i same (ground (arith, p, there)) h)
]

-- Removing at the index of one identifier leaves what a search for another finds, and where the
-- identifiers are distinct the removed one is free.
pub find-remove_at_ne :
    (id other : String) (rs : List SettingsRecord) (i : ℕ)
    → position (λ q. q.id == id) rs ≡ some i
    → (id == other) ≡ false
    → find (λ q. q.id == other) (remove_at i rs) ≡ find (λ q. q.id == other) rs
find-remove_at_ne id other [] i p h = refl
find-remove_at_ne id other (q ∷ rs) zero p h = elim (Bool-cases (q.id == id)) [
  | inl here ↦ let apart : (q.id == other) ≡ false = rw (eq_of q.id id here) h in rw apart
  | inr there ↦ absurd (ground (arith, p, there))
]
find-remove_at_ne id other (q ∷ rs) (suc i) p h = elim (Bool-cases (q.id == id)) [
  | inl here ↦ absurd (ground (arith, p, here))
  | inr there ↦ ground (arith, find-remove_at_ne id other rs i (ground (arith, p, there)) h)
]

pub id_taken-remove_self :
    (id : String) (rs : List SettingsRecord) (i : ℕ)
    → DistinctIds rs
    → position (λ q. q.id == id) rs ≡ some i
    → id_taken (remove_at i rs) id ≡ false
unfolding id_taken
id_taken-remove_self id [] i d p = cc
id_taken-remove_self id (q ∷ rs) zero d p = elim (Bool-cases (q.id == id)) [
  | inl here ↦ subst (λ s. any (λ r. r.id == s) rs ≡ false) (eq_of q.id id here) d.0
  | inr there ↦ absurd (ground (arith, p, there))
]
id_taken-remove_self id (q ∷ rs) (suc i) d p = elim (Bool-cases (q.id == id)) [
  | inl here ↦ absurd (ground (arith, p, here))
  | inr there ↦ rw there (id_taken-remove_self id rs i d.1 (ground (arith, p, there)))
]

-- What a search finds stands at an index that the search for the index finds.
pub find-position :
    (id : String) (rs : List SettingsRecord) (r : SettingsRecord)
    → find (λ q. q.id == id) rs ≡ some r
    → (i : ℕ) × (position (λ q. q.id == id) rs ≡ some i) × (get_elem? rs i ≡ some r)
find-position id [] r h = cc
find-position id (q ∷ rs) r h = elim (Bool-cases (q.id == id)) [
  | inl here ↦ (zero, rw here, ground (arith, h, here))
  | inr there ↦
      let (i, at, read) = find-position id rs r (ground (arith, h, there)) in
      (suc i, ground (arith, at, there), read)
]
