-- ===== src/Pdata/Concrete.antt =====
-- A concrete pdata library that has the laws of the interface: maps as association lists, and a log
-- record as what it holds.
use opentelemetry_collector.Common.{
  ℕ, ◌+◌, ◌≡◌, refl, Bool, false, List, [], ◌∷◌, ◌++◌, Option, length, Text, Dict, lookup, insert,
  lookup-insert, arith,
}
use opentelemetry_collector.Pdata.{Attribute, PdataApi, View}
use opentelemetry_collector.Severity.{unspecified}
use opentelemetry_collector.Value.{Time, zero_time}

abbrev pub Record : Type 0
Record = View (Dict Attribute) Time Bool

abbrev pub empty_record : Record
empty_record = record {
  timestamp = zero_time;
  observed_timestamp = zero_time;
  severity_number = unspecified;
  severity_text = [];
  body = [];
  attributes = [];
  trace_id = [];
  span_id = [];
  flags = false;
}

abbrev pub total : List (List Record) → ℕ
total [] = 0
total (rs ∷ logs) = length rs + total logs

abbrev pub flat : List (List Record) → List Record
flat [] = []
flat (rs ∷ logs) = flat logs ++ rs

pub total-append :
    (logs : List (List Record)) (rs : List Record) → total (rs ∷ logs) ≡ total logs + length rs
total-append logs rs = omega arith

pub lookup-empty : (k : Text) → lookup k (let m : Dict Attribute = [] in m) ≡ Option.none
unfolding lookup
lookup-empty k = refl

abbrev pub pdata : PdataApi
pdata = record {
  Map = Dict Attribute;
  Timestamp = Time;
  Flags = Bool;
  LogRecord = Record;
  Logs = List (List Record);
  new_map = [];
  put_str = λ m k v. insert k (Attribute.str v) m;
  put_int = λ m k v. insert k (Attribute.int v) m;
  put_double = λ m k v. insert k (Attribute.double v) m;
  put_bool = λ m k v. insert k (Attribute.bool v) m;
  get = λ m k. lookup k m;
  get-new_map = lookup-empty;
  get-put_str = λ m j v k. lookup-insert j k (Attribute.str v) m;
  get-put_int = λ m j v k. lookup-insert j k (Attribute.int v) m;
  get-put_double = λ m j v k. lookup-insert j k (Attribute.double v) m;
  get-put_bool = λ m j v k. lookup-insert j k (Attribute.bool v) m;
  new_timestamp = λ t. t;
  default_flags = false;
  with_is_sampled = λ f b. b;
  is_sampled = λ f. f;
  is_sampled-default = refl;
  is_sampled-with = λ f b. refl;
  new_log_record = empty_record;
  view = λ r. r;
  set_timestamp = λ r t. record r { timestamp = t };
  set_observed_timestamp = λ r t. record r { observed_timestamp = t };
  set_severity_number = λ r n. record r { severity_number = n };
  set_severity_text = λ r s. record r { severity_text = s };
  set_body = λ r s. record r { body = s };
  set_attributes = λ r m. record r { attributes = m };
  set_trace_id = λ r bs. record r { trace_id = bs };
  set_span_id = λ r bs. record r { span_id = bs };
  set_flags = λ r f. record r { flags = f };
  new-attributes = refl;
  new-flags = refl;
  view-timestamp = λ r t. refl;
  view-observed_timestamp = λ r t. refl;
  view-severity_number = λ r n. refl;
  view-severity_text = λ r s. refl;
  view-body = λ r s. refl;
  view-attributes = λ r m. refl;
  view-trace_id = λ r bs. refl;
  view-span_id = λ r bs. refl;
  view-flags = λ r f. refl;
  new_logs = [];
  append_resource_logs = λ logs m scope version rs. rs ∷ logs;
  log_record_count = total;
  log_records = flat;
  log_records-new_logs = refl;
  log_records-append = λ logs m scope version rs. refl;
  count-new_logs = refl;
  count-append = λ logs m scope version rs. total-append logs rs;
}
