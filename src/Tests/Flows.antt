-- ===== src/Tests/Flows.antt =====
-- Flows.
use hqts.Base.{◌≡◌, [], lookup, arith, ◌↔◌}
use hqts.Flow.Identifier.{FiveTuple}
use hqts.Flow.Table.{find}
use hqts.Flow.Classifier.{FlowClassifier, get_or_create_flow}
use hqts.Flow.Classifier.Laws.{IsClassified, get_or_create_flow_distinct}

abbrev pub web : FiveTuple
web = record { source_ip = 1; dest_ip = 2; source_port = 1024; dest_port = 80; protocol = 6 }

abbrev dns : FiveTuple
dns = record { source_ip = 1; dest_ip = 3; source_port = 1024; dest_port = 53; protocol = 17 }

abbrev pub new : FlowClassifier
new = record { flow_key_to_flow_id_map = []; next_flow_id = 1; default_policy_id = 1 }

pub new-IsClassified : IsClassified new []
unfolding find lookup
new-IsClassified = record {
  no_wrap = omega arith;
  fresh = λ i x e. absurd (ground (arith, e));
  known = λ k i e. absurd (ground (arith, e));
  distinct = λ j k i e f. absurd (ground (arith, e));
}

get_or_create_flow_distinct_example :
    let (c', t', i) = get_or_create_flow new [] web 100 in
    let (_, _, h) = get_or_create_flow c' t' dns 200 in (i ≡ h) ↔ (web ≡ dns)
get_or_create_flow_distinct_example =
    get_or_create_flow_distinct new [] web dns 100 200 new-IsClassified (omega arith)
