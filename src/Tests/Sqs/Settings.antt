-- ===== src/Tests/Sqs/Settings.antt =====
-- sqs/SqsPlugin/SqsConfig.cpp on concrete inputs.
use graftcode_extensions.Base.{
  c_str, ◌≡◌, refl, true, false, Option, none, some, Bytes, codes, find, bytes_eq, starts_with,
  pop_while, skip_while, before_byte, ok,
}
use graftcode_extensions.Json.{JsonLibrary, members, is_object, is_some, contains, first_found}
use graftcode_extensions.Sqs.Config.{
  SqsConfig, default_config, find_sqs_node, parse_sqs_config_source, parse_json_source, is_sqs_node,
  has_specific_sqs_keys, is_flat_sqs_alias, read_string, read_positive_uint, read_bool, read_config,
  config_of_node, check_config,
}
use graftcode_extensions.Sqs.Config.Bounds.{IsBounded, parse_sqs_config_source-IsBounded}
use graftcode_extensions.Json.Search.{
  find_node, find_fuel, search_node, search_object, member_object,
}
use graftcode_extensions.Json.Search.Found.{
  IsSettings, Finds, find_node-Finds, find_node-IsSettings,
}
use graftcode_extensions.Sqs.Endpoint.{ParsedEndpoint, is_fifo_queue_url, parse_endpoint_override}
use graftcode_extensions.Sqs.Aws.{ClientConfiguration, create_aws_sqs_client, poll_timeout_ms}
use graftcode_extensions.Tests.Fixtures.{
  Doc, text, blank, member, doc_library, doc_view, doc_members, doc_size,
}

abbrev queue : Bytes
queue = codes "q.fifo"

-- { "requestQueueUrl": queue }
abbrev settings : Doc
settings = member (codes "requestQueueUrl") (text queue) blank

-- { "plugins": { "sqs": settings } }
abbrev nested : Doc
nested = member (codes "plugins") (member (codes "sqs") settings blank) blank

abbrev library : JsonLibrary
library = doc_library nested

abbrev no_file : Bytes → Option Bytes
no_file _ = none

abbrev settings_config : SqsConfig
settings_config = record default_config { request_queue_url = queue }

found : find_sqs_node library nested ≡ some settings
unfolding find_sqs_node find_node find_fuel search_node search_object member_object is_sqs_node
    has_specific_sqs_keys is_flat_sqs_alias find members is_object contains is_some first_found
    doc_view doc_members doc_size codes bytes_eq
found = refl

parsed : parse_sqs_config_source library no_file (codes "{}") ≡ ok settings_config
unfolding parse_sqs_config_source parse_json_source find_sqs_node find_node find_fuel search_node
    search_object member_object is_sqs_node has_specific_sqs_keys is_flat_sqs_alias find members
    is_object contains is_some first_found doc_view doc_members doc_size codes bytes_eq
    config_of_node read_config read_string read_positive_uint read_bool check_config
parsed = refl

parse_sqs_config_source-IsBounded_example : IsBounded settings_config
parse_sqs_config_source-IsBounded_example =
    parse_sqs_config_source-IsBounded library no_file (codes "{}") parsed

find_node-Finds_example :
    Finds library
      (codes "sqs")
      (is_sqs_node library)
      false
      nested
      (find_node library (codes "sqs") (is_sqs_node library) false nested)
find_node-Finds_example = find_node-Finds library (codes "sqs") (is_sqs_node library) false nested

found_by_key : find_node library (codes "sqs") (is_sqs_node library) false nested ≡ some settings
unfolding find_sqs_node
found_by_key = found

find_node-IsSettings_example : IsSettings library (codes "sqs") (is_sqs_node library) settings
find_node-IsSettings_example =
    find_node-IsSettings library (codes "sqs") (is_sqs_node library) false nested found_by_key

abbrev local_config : SqsConfig
local_config = record settings_config { endpoint_override = codes "http://h/" }

abbrev local_client : ClientConfiguration
local_client = record {
  region = codes "us-east-1";
  verify_ssl = false;
  connect_timeout_ms = 5000;
  request_timeout_ms = 30000;
  http_request_timeout_ms = 30000;
  scheme_https = some false;
  endpoint = some (codes "h");
  imds_disabled = true;
  credentials = none;
}

local_config-IsBounded : IsBounded local_config
local_config-IsBounded = record {
  timeout = k.timeout;
  poll = k.poll;
  visible = k.visible;
  region_given = k.region_given;
  group = k.group;
  keys_paired = k.keys_paired;
}
  where
    k : IsBounded settings_config
    k = parse_sqs_config_source-IsBounded library no_file (codes "{}") parsed

made : create_aws_sqs_client local_config ≡ ok local_client
unfolding create_aws_sqs_client parse_endpoint_override poll_timeout_ms c_str codes pop_while
    skip_while starts_with before_byte
made = refl

-- A URL with slashes and a query behind the suffix.
fifo_query : is_fifo_queue_url (codes "https://sqs/q.fifo/?x=/") ≡ true
unfolding is_fifo_queue_url codes pop_while before_byte bytes_eq
fifo_query = refl

http_override :
    parse_endpoint_override (codes " http://localhost:4566/ \t")
    ≡ ok (record { overridden = true; use_https = false; authority = codes "localhost:4566" })
unfolding parse_endpoint_override codes pop_while skip_while starts_with
http_override = refl

abbrev local_endpoint : ParsedEndpoint
local_endpoint = record { overridden = true; use_https = false; authority = codes "localhost:4566" }
