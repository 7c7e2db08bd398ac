-- ===== src/Tests/PubSub/Settings.antt =====
-- The settings and the session of the Pub/Sub plugin on concrete inputs.
use graftcode_extensions.Base.{
  not, arith, ℕ, ◌≡◌, ◌↔◌, refl, true, false, ◌&&◌, Option, none, List, [], ◌∷◌, Bytes, codes,
  is_empty, find, bytes_eq, pop_while, skip_while, back, pop_back, ok, throw, unknown,
}
use graftcode_extensions.Base.Int.{pos}
use graftcode_extensions.Json.{JsonLibrary, members, is_object, is_some, contains, first_found}
use graftcode_extensions.Json.Search.{
  find_node, find_fuel, search_node, search_object, member_object,
}
use graftcode_extensions.PubSub.Config.{
  PubSubConfig, is_valid_resource_id, every, is_valid_project_id, normalize_emulator_host, trim,
  check_config, default_subscription,
}
use graftcode_extensions.PubSub.Config.Source.{
  parse_pubsub_config_source, parse_json_source, find_pubsub_node, is_pubsub_node,
  has_specific_pubsub_keys, is_flat_pubsub_alias, has_key, read_config, read_string,
  read_positive_uint, read_bool, config_of_node,
}
use graftcode_extensions.PubSub.Config.Ready.{
  IsResourceId, IsProjectId, is_valid_resource_id_iff, valid_project,
}
use graftcode_extensions.PubSub.Config.Parsed.{IsParsed, parse_pubsub_config_source-IsParsed}
use graftcode_extensions.PubSub.Session.{new_session, Net, HttpResult, gave}
use graftcode_extensions.PubSub.Session.Token.{TokenValues, bearer_token, is_before}
use graftcode_extensions.PubSub.Session.Targets.{SessionOp, ensures_topic, acknowledges}
use graftcode_extensions.PubSub.Session.Reuse.{
  AsksMetadata, Grants, Again, fetched, metadata_token-reused,
}
use graftcode_extensions.Json.Read.{string_at, view_at, string_of}
use graftcode_extensions.PubSub.Session.Urls.{resource_url_injective}
use graftcode_extensions.Tests.Fixtures.{
  Doc, text, blank, member, doc_library, doc_view, doc_members, doc_size,
}

is_valid_resource_id_iff_example :
    (is_valid_resource_id (codes "a-1") ≡ true) ↔ IsResourceId (codes "a-1")
is_valid_resource_id_iff_example = is_valid_resource_id_iff (codes "a-1")

-- { "requestTopic": "t" }
abbrev settings : Doc
settings = member (codes "requestTopic") (text (codes "t")) blank

abbrev library : JsonLibrary
library = doc_library settings

abbrev no_file : Bytes → Option Bytes
no_file _ = none

abbrev config : PubSubConfig
config = record {
  name = [];
  project_id = [];
  request_topic = codes "t";
  request_subscription = codes "t-sub";
  reply_topic = [];
  reply_subscription = [];
  emulator_host = [];
  credentials_file = [];
  access_token = [];
  rpc_timeout_ms = 30000;
  ack_deadline_seconds = 60;
  max_messages = 10;
  one_way = false;
  auto_create = false;
  auto_create_specified = false;
  verify_ssl = true;
  emulator_use_https = false;
}

parsed : parse_pubsub_config_source library no_file (codes "{}") ≡ ok config
unfolding parse_pubsub_config_source parse_json_source find_pubsub_node find_node find_fuel
    search_node search_object member_object is_pubsub_node has_specific_pubsub_keys
    is_flat_pubsub_alias has_key find members is_object contains is_some first_found doc_view
    doc_members doc_size codes bytes_eq config_of_node read_config read_string read_positive_uint
    read_bool check_config normalize_emulator_host trim pop_while skip_while back pop_back
    default_subscription
parsed = refl

parse_pubsub_config_source-IsParsed_example : IsParsed config
parse_pubsub_config_source-IsParsed_example =
    parse_pubsub_config_source-IsParsed library no_file (codes "{}") parsed

abbrev values : TokenValues library
values = record { dump = λ v. codes "{}"; token_uri = λ j. ok []; expires_in = λ j. ok (pos 3600) }

abbrev accepts : HttpResult
accepts = record { status = 200; timed_out = false; body = codes "{}"; error = [] }

abbrev net : Net
net = record {
  respond = λ sent r. accepts;
  epoch_seconds = λ sent. 0;
  read_file = no_file;
  sign_rs256 = λ input key. throw unknown;
}

abbrev to_string : ℕ → Bytes
to_string n = []

abbrev emulated : PubSubConfig
emulated = record config { emulator_host = codes "h"; project_id = codes "p" }

abbrev two_ops : List SessionOp
two_ops = ensures_topic (codes "t") ∷ acknowledges (codes "s") (codes "a" ∷ []) ∷ []

-- { "access_token": "t" }
abbrev token_doc : Doc
token_doc = member (codes "access_token") (text (b't' ∷ [])) blank

abbrev token_library : JsonLibrary
token_library = doc_library token_doc

abbrev token_values : TokenValues token_library
token_values = record {
  dump = λ v. codes "{}";
  token_uri = λ j. ok [];
  expires_in = λ j. ok (pos 3600);
}

asks : AsksMetadata (new_session config)
unfolding new_session
asks = record { no_emulator = refl; no_token = refl; no_file = refl }

grants : Grants token_library token_values to_string net (new_session config) (b't' ∷ []) 3600
unfolding find bytes_eq codes members doc_view doc_members string_at view_at string_of
grants = record {
  node = token_doc;
  accepted = refl;
  parsed = refl;
  has_token = refl;
  has_lifetime = refl;
}

-- Half an hour later.
abbrev later_net : Net
later_net = record net { epoch_seconds = λ sent. 1800 }

no_token_yet :
    (not (is_empty (new_session config).cached_token)
      && is_before (net.epoch_seconds (new_session config).sent) (new_session config).token_expiry)
    ≡ false
unfolding new_session
no_token_yet = refl

metadata_token-reused_example :
    (bearer_token token_library token_values net to_string (new_session config)
      ≡ (fetched (new_session config) (b't' ∷ []) 3540, gave (b't' ∷ [])))
    × Again token_library token_values to_string later_net
        (fetched (new_session config) (b't' ∷ []) 3540)
        (b't' ∷ [])
        3540
metadata_token-reused_example =
    metadata_token-reused token_library token_values to_string net later_net (new_session config)
      (b't' ∷ []) 3600 asks no_token_yet grants (omega arith) (λ e. cc)

abbrev named : PubSubConfig
named = record config { project_id = b'p' ∷ [] }

project : IsProjectId named.project_id
project = valid_project named.project_id (unfold is_valid_project_id every in refl)

abbrev topics : Bytes
topics = b't' ∷ []

abbrev one_name : Bytes
one_name = b'x' ∷ []

resource_url_injective_example :
    (named.project_id ≡ named.project_id) × (topics ≡ topics) × (one_name ≡ one_name)
resource_url_injective_example =
    resource_url_injective named named topics topics one_name one_name project project refl
      (refl, tt) (refl, tt) refl
