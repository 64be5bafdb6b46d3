-- ===== src/SessionPages/Parts/Complete.antt =====
-- src/session_turn_pages.rs: what `classified_parts` answers of a message.
use agent_runner_opencode.Prelude.{
  if◌then◌else◌, Bool-cases, is_present, length, get_elem?, take, any, filter, eq_of, Dict, lookup,
  lookup-insert_key, insert_key, ℕ, suc, ◌+◌, ◌≤◌, String, ◌≡◌, refl, sym, ap, ◌∙◌, subst, inl, inr,
  Bool, true, false, ◌||◌, not, Option, none, some, List, [], ◌∷◌, map, arith, ◌==◌, eq_iff,
}
use agent_runner_opencode.Json.{Value}
use agent_runner_opencode.Failure.{Result, ok, refuse_if, ok_or, >>=-eq-ok, refuse_if-passed}
use agent_runner_opencode.SessionPages.Data.{
  SourceKey, PartMetadata, ClassifiedPart, source_schema_failure, turn_metadata_too_large_failure,
  SourceWork, remaining, add,
}
use agent_runner_opencode.SessionPages.Parts.{
  PartSource, is_part_of, is_truncated, is_crowded, select_prefixes, parse_part_metadata, classify,
  classify_messages, classified_parts,
}
use agent_runner_opencode.Settings.Requests.Created.{ok_inj}

none_absurd : {P : Type 0} (parts : List ClassifiedPart) → none ≡ some parts → P
none_absurd parts h = cc

some_classified : {a b : List ClassifiedPart} → some a ≡ some b → a ≡ b
some_classified h = cc

length-map :
    (parts : List ClassifiedPart) → length (map (λ part. part.metadata) parts) ≡ length parts
length-map [] = refl
length-map (part ∷ parts) = ap suc (length-map parts)

is_crowded-le :
    (counts : String → ℕ) (parts : List PartMetadata) (id : String)
    → is_crowded counts parts ≡ false
    → counts id ≤ 128
    → counts id + length (filter (is_part_of id) parts) ≤ 128
unfolding is_crowded
is_crowded-le counts [] id h b = omega (arith, b)
is_crowded-le counts (part ∷ parts) id h b = ground (
  arith,
  h,
  b,
  eq_iff part.message_id id,
  is_crowded-le
      (λ other. if part.message_id == other then counts part.message_id + 1 else counts other) parts
      id,
)

module _ (source : PartSource) (request_id : String) where
  classify-metadata :
      (prefixes : Dict (List ℕ)) (parts : List PartMetadata) (classified : List ClassifiedPart)
      → classify source request_id prefixes parts ≡ ok classified
      → map (λ part. part.metadata) classified ≡ parts
  unfolding classify
  classify-metadata prefixes [] classified h = ap (map (λ part. part.metadata)) (sym (ok_inj h))
  classify-metadata prefixes (part ∷ parts) classified h =
      let (prefix, a, h1) =
        >>=-eq-ok (ok_or (lookup part.id prefixes) (source_schema_failure request_id)) _ h in
      let (part_type, b, h2) =
        >>=-eq-ok (ok_or (source.part_type_from_prefix prefix) (source_schema_failure request_id)) _
          h1 in
      let (rest, c, h3) = >>=-eq-ok (classify source request_id prefixes parts) _ h2 in
      ap (map (λ part. part.metadata)) (sym (ok_inj h3))
      ∙ ap (λ ps. part ∷ ps) (classify-metadata prefixes parts rest c)

  module _ (metadata : List PartMetadata) (truncated : Option PartMetadata)
      (prefixes : Dict (List ℕ)) where
    -- What is answered of a message: all its parts, which the query did not cut off.
    abbrev pub IsComplete : String → List ClassifiedPart → Type 0
    IsComplete id parts =
        (map (λ part. part.metadata) parts ≡ filter (is_part_of id) metadata)
        × (is_truncated truncated id ≡ false)

    inserted-IsComplete :
        (key id : String) (classified parts : List ClassifiedPart)
        (result : Dict (List ClassifiedPart))
        → IsComplete key classified
        → (lookup id result ≡ some parts → IsComplete id parts)
        → lookup id (insert_key key classified result) ≡ some parts
        → IsComplete id parts
    inserted-IsComplete key id classified parts result new old h = elim (Bool-cases (key == id)) [
      | inl same ↦
          subst (λ ps. IsComplete id ps)
            (some_classified (ground (arith, lookup-insert_key key id classified result, same, h)))
            (subst (λ name. IsComplete name classified) (eq_of key id same) new)
      | inr differs ↦ old (ground (arith, lookup-insert_key key id classified result, differs, h))
    ]

    classify_messages-IsComplete :
        (messages : List SourceKey) (result answer : Dict (List ClassifiedPart)) (id : String)
        (parts : List ClassifiedPart)
        → classify_messages source request_id metadata truncated prefixes messages result
          ≡ ok answer
        → (lookup id result ≡ some parts → IsComplete id parts)
        → lookup id answer ≡ some parts
        → IsComplete id parts
    unfolding classify_messages
    classify_messages-IsComplete [] result answer id parts h old l =
        old (ap (lookup id) (ok_inj h) ∙ l)
    classify_messages-IsComplete (message ∷ messages) result answer id parts h old l =
        elim (Bool-cases ends) [
          | inl done ↦ old (ap (lookup id) (ok_inj (if-true ends _ _ done h)) ∙ l)
          | inr more ↦
              let (classified, a, h1) =
                >>=-eq-ok
                  (classify source request_id prefixes (filter (is_part_of message.id) metadata)) _
                  (if-false ends _ _ more h) in
              classify_messages-IsComplete messages (insert_key message.id classified result) answer
                id parts h1
                (inserted-IsComplete message.id id classified parts result
                  (
                    classify-metadata prefixes (filter (is_part_of message.id) metadata) classified
                        a,
                    ground (arith, more),
                  )
                  old)
                l
        ]
      where
        ends : Bool
        ends =
            is_truncated truncated message.id
            || any (λ part. not (is_present (lookup part.id prefixes)))
                (filter (is_part_of message.id) metadata)

        if-true :
            (b : Bool) (x y : Result (Dict (List ClassifiedPart)))
            → b ≡ true
            → (if b then x else y) ≡ ok answer
            → x ≡ ok answer
        if-true b x y e h = ground (arith, e, h)

        if-false :
            (b : Bool) (x y : Result (Dict (List ClassifiedPart)))
            → b ≡ false
            → (if b then x else y) ≡ ok answer
            → y ≡ ok answer
        if-false b x y e h = ground (arith, e, h)

  -- The parts answered of a message are all the parts that the query's rows have of it, in their order;
  -- the query did not cut them off, and there are no more than 128.
  pub classified_parts-IsComplete :
      (messages : List SourceKey) (work : SourceWork)
      (answer : Dict (List ClassifiedPart) × SourceWork) (id : String) (parts : List ClassifiedPart)
      → classified_parts source request_id messages work ≡ ok answer
      → lookup id answer.0 ≡ some parts
      → (rows : List Value) × (metadata : List PartMetadata) × (source.part_rows messages ≡ ok rows)
        × (parse_part_metadata source request_id rows ≡ ok metadata)
        × (map (λ part. part.metadata) parts ≡ filter (is_part_of id) (take 129 metadata))
        × (is_truncated (get_elem? metadata 129) id ≡ false)
        × (length parts ≤ 128)
  unfolding classified_parts
  classified_parts-IsComplete [] work answer id parts h l =
      none_absurd parts (ap (λ a. lookup id a.0) (ok_inj h) ∙ l)
  classified_parts-IsComplete (message ∷ messages) work answer id parts h l =
      let (rows, a, h1) = >>=-eq-ok (source.part_rows (message ∷ messages)) _ h in
      let (metadata, b, h2) = >>=-eq-ok (parse_part_metadata source request_id rows) _ h1 in
      let kept : List PartMetadata = take 129 metadata in
      let (_u, c, h3) =
        >>=-eq-ok
          (refuse_if (is_crowded (λ _. 0) kept) (turn_metadata_too_large_failure request_id)) _
          h2 in
      let selected : List PartMetadata × ℕ =
        select_prefixes (get_elem? metadata 129) (remaining work) 0 kept in
      let (prefixes, d, h4) = >>=-eq-ok (source.load_part_bytes selected.0) _ h3 in
      let (worked, e, h5) = >>=-eq-ok (add work selected.1 request_id) _ h4 in
      let (result, f, h6) =
        >>=-eq-ok
          (classify_messages source request_id kept (get_elem? metadata 129) prefixes
            (message ∷ messages) [])
          _ h5 in
      let (same, whole) =
        classify_messages-IsComplete kept (get_elem? metadata 129) prefixes (message ∷ messages) []
          result id parts f (λ n. none_absurd parts n) (ap (λ r. lookup id r.0) (ok_inj h6) ∙ l) in
      (
        rows,
        metadata,
        a,
        b,
        same,
        whole,
        omega (
          arith,
          sym (length-map parts),
          ap length same,
          is_crowded-le (λ _. 0) kept id (refuse_if-passed _ _ c) (omega arith),
        ),
      )
