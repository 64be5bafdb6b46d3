-- ===== src/Examples/Parts.antt =====
-- Tests and an example of the classification of a message's parts.
use agent_runner_opencode.Prelude.{
  length, get_elem?, take, filter, insert_key, ◌≤◌, String, ◌≡◌, refl, false, some, List, [], ◌∷◌,
  map,
}
use agent_runner_opencode.Json.{pos_int, Value, number, text, object, field, end}
use agent_runner_opencode.Failure.{ok}
use agent_runner_opencode.SessionPages.Data.{
  SourceKey, PartMetadata, ClassifiedPart, new_work, remaining, add,
}
use agent_runner_opencode.SessionPages.Parts.{
  PartSource, is_part_of, is_truncated, is_crowded, select_prefixes, part_metadata_from_row,
  parse_part_metadata, classify, classify_messages, classified_parts,
}
use agent_runner_opencode.SessionPages.Parts.Complete.{classified_parts-IsComplete}

abbrev part_row : String → Value
part_row id = object (
    field "data_bytes" (number (pos_int 20)) (
      field "id" (text id)
        (field "message_id" (text "m1") (field "time_updated" (number (pos_int 6)) end))))

abbrev metadata_of : String → PartMetadata
metadata_of id = record { id = id; message_id = "m1"; updated = 6; data_bytes = 20 }

abbrev source : PartSource
source = record {
  part_rows = λ messages. ok (part_row "p1" ∷ part_row "p2" ∷ []);
  load_part_bytes = λ parts. ok (map (λ part. (part.id, 123 ∷ [])) parts);
  part_type_from_prefix = λ prefix. some "text";
}

abbrev classified : List ClassifiedPart
classified =
    record { metadata = metadata_of "p1"; part_type = "text" }
    ∷ record { metadata = metadata_of "p2"; part_type = "text" }
    ∷ []

abbrev first_message : SourceKey
first_message = record { created = 5; id = "m1" }

-- Both parts of the message are classified, for the 40 bytes of their prefixes.
classifies :
    classified_parts source "r" (first_message ∷ []) (new_work 100)
    ≡ ok (("m1", classified) ∷ [], record { maximum = 100; examined = 40 })
unfolding classified_parts classify classify_messages insert_key add remaining select_prefixes
    is_crowded part_metadata_from_row parse_part_metadata
classifies = refl

-- Without bytes for the second prefix, nothing of the message is answered.
classifies_nothing :
    classified_parts source "r" (first_message ∷ []) (new_work 30)
    ≡ ok ([], record { maximum = 30; examined = 20 })
unfolding classified_parts classify classify_messages insert_key add remaining select_prefixes
    is_crowded part_metadata_from_row parse_part_metadata
classifies_nothing = refl

classified_parts-IsComplete_example :
    (rows : List Value) × (metadata : List PartMetadata) × (source.part_rows (first_message ∷ [])
      ≡ ok rows)
    × (parse_part_metadata source "r" rows ≡ ok metadata)
    × (map (λ part. part.metadata) classified ≡ filter (is_part_of "m1") (take 129 metadata))
    × (is_truncated (get_elem? metadata 129) "m1" ≡ false)
    × (length classified ≤ 128)
classified_parts-IsComplete_example =
    classified_parts-IsComplete source "r" (first_message ∷ []) (new_work 100)
      (("m1", classified) ∷ [], record { maximum = 100; examined = 40 }) "m1" classified classifies
      refl
