-- ===== src/Mock/Client/Agreement.antt =====
-- `parseRecordMap` of receiver/opcua/testdata/mock_client.go against `parseLogRecordFromMap` of
-- receiver/opcua/get_records.go.
use opentelemetry_collector.Common.{◌≡◌, refl, [], Option, none, some, lit, Dict}
use opentelemetry_collector.Mock.Client.{parse_record_map, take_item, take_items}
use opentelemetry_collector.Records.Parse.{
  parse_log_record_from_map, source_components, put_entry, put_entries, message_of, field_at,
  as_text, as_dict, or_else,
}
use opentelemetry_collector.Ua.NodeIds.{NodeIdApi}
use opentelemetry_collector.Value.{Value, Values, Fields, stop, item}

message_of-as_text : (o : Option Value) → as_dict o ≡ none → message_of o ≡ or_else (as_text o) []
message_of-as_text none h = refl
message_of-as_text (some (Value.dict m)) h = cc
message_of-as_text (some (Value.text s)) h = refl
message_of-as_text (some _) h = refl

put_entry-take_item :
    (v : Value) (attributes : Dict Value)
    → put_entry (as_dict (some v)) attributes ≡ take_item v attributes
unfolding put_entry take_item
put_entry-take_item (Value.dict nvp) attributes = refl
put_entry-take_item _ attributes = refl

put_entries-take_items :
    (vs : Values) (attributes : Dict Value) → put_entries vs attributes ≡ take_items vs attributes
unfolding put_entries take_items
put_entries-take_items stop attributes = refl
put_entries-take_items (item v vs) attributes =
    rw (put_entry-take_item v attributes) (put_entries-take_items vs (take_item v attributes))

-- On every map whose "Message" is no map and whose "SourceNode" is no text, the parser of the
-- tests' client and the parser of the receiver's client make the same record.
pub parse_log_record_from_map-parse_record_map :
    (ua : NodeIdApi) (m : Fields)
    → as_dict (field_at (lit "Message") m) ≡ none
    → as_text (field_at (lit "SourceNode") m) ≡ none
    → parse_log_record_from_map ua m ≡ parse_record_map m
unfolding parse_log_record_from_map parse_record_map source_components
parse_log_record_from_map-parse_record_map ua m h k =
    rw (k, message_of-as_text (field_at (lit "Message") m) h, put_entries-take_items)
