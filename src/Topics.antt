-- ===== src/Topics.antt =====
-- wirepas_backend_client/api/mqtt/topics.py: the topics of requests, responses and events.
pub mod Decorators
pub mod Parts
pub mod Delivered
pub mod Subscription
mod Tests
use Prim.Native.Char.{code}
use Prim.Native.String
use Prim.Native.String.{String}
use backend_client.Base.{
  ℕ, ◌+◌, Bool, true, false, ◌&&◌, Option, none, some, List, [], ◌∷◌, ◌++◌, map, leb, if◌then◌else◌,
  bytes_eq,
}
use backend_client.Base.Dict.{Dict, lookup}
use backend_client.Base.Exceptions.{Result, ok, err, ◌>>=◌, or_raise, key_error}

-- A text is the list of its code points.
abbrev pub Text : Type 0
Text = List ℕ

abbrev pub chars : String → Text
chars String.[] = []
chars (String.◌∷◌ c s) = code c ∷ chars s

-- The classes of wirepas_messaging.gateway that the table names
pub data Constructor : Type 0 where
  get_configs_request set_config_request send_data_request status_request : Constructor
  upload_request process_request request : Constructor
  get_configs_response set_config_response send_data_response status_response : Constructor
  upload_response process_response response : Constructor
  generic_message status_event received_data_event event : Constructor

-- A piece of a path: a text, or the name of an argument in braces
pub data Piece : Type 0 where
  literal argument : String → Piece

pub record Info : Type 0 where
  pub path : List Piece
  pub constructor : Constructor

abbrev of_gateway : String → Constructor → Info
of_gateway start c = record { path = literal start ∷ argument "gw_id" ∷ []; constructor = c }

abbrev of_sink : String → Constructor → Info
of_sink start c = record {
  path = literal start ∷ argument "gw_id" ∷ literal "/" ∷ argument "sink_id" ∷ [];
  constructor = c;
}

abbrev fallback : Constructor → Info
fallback c = record { path = []; constructor = c }

-- `_build_topics`, for the one version of the API that there is
abbrev pub requests : Dict Text Info
requests =
    (chars "get_configs", of_gateway "gw-request/get_configs/" get_configs_request)
    ∷ (chars "set_config", of_sink "gw-request/set_config/" set_config_request)
    ∷ (chars "send_data", of_sink "gw-request/send_data/" send_data_request)
    ∷ (chars "otap_status", of_sink "gw-request/otap_status/" status_request)
    ∷ (chars "otap_load_scratchpad", of_sink "gw-request/otap_load_scratchpad/" upload_request)
    ∷ (
      chars "otap_process_scratchpad",
      of_sink "gw-request/otap_process_scratchpad/" process_request,
    )
    ∷ (chars "generic", fallback request)
    ∷ []

abbrev pub responses : Dict Text Info
responses =
    (chars "get_configs", of_gateway "gw-response/get_configs/" get_configs_response)
    ∷ (chars "set_config", of_sink "gw-response/set_config/" set_config_response)
    ∷ (chars "send_data", of_sink "gw-response/send_data/" send_data_response)
    ∷ (chars "otap_status", of_sink "gw-response/otap_status/" status_response)
    ∷ (chars "otap_load_scratchpad", of_sink "gw-response/otap_load_scratchpad/" upload_response)
    ∷ (
      chars "otap_process_scratchpad",
      of_sink "gw-response/otap_process_scratchpad/" process_response,
    )
    ∷ (chars "generic", fallback response)
    ∷ []

abbrev received_data : Info
received_data = record {
  path =
      literal "gw-event/received_data/"
      ∷ argument "gw_id"
      ∷ literal "/"
      ∷ argument "sink_id"
      ∷ literal "/"
      ∷ argument "network_id"
      ∷ literal "/"
      ∷ argument "src_ep"
      ∷ literal "/"
      ∷ argument "dst_ep"
      ∷ [];
  constructor = received_data_event;
}

abbrev pub events : Dict Text Info
events =
    (chars "clear", of_gateway "gw-event/status/" generic_message)
    ∷ (chars "status", of_gateway "gw-event/status/" status_event)
    ∷ (chars "received_data", received_data)
    ∷ (chars "generic", fallback event)
    ∷ []

abbrev pub topics : Dict Text (Dict Text Info)
topics = (chars "request", requests) ∷ (chars "response", responses) ∷ (chars "event", events) ∷ []

-- `str.lower`, of ASCII
abbrev pub lower_char : ℕ → ℕ
lower_char c = if leb b'A' c && leb c b'Z' then c + 32 else c

-- The arguments of a topic
abbrev pub arguments : Text → Text → Text → Text → Text → Dict Text Text
arguments gw sink network source destination =
    (chars "gw_id", gw)
    ∷ (chars "sink_id", sink)
    ∷ (chars "network_id", network)
    ∷ (chars "src_ep", source)
    ∷ (chars "dst_ep", destination)
    ∷ []

-- `path.format(**kwargs)`: an argument that is not given is an error.
abbrev pub format : List Piece → Dict Text Text → Result Text
format [] kwargs = ok []
format (literal s ∷ more) kwargs = do rest ← format more kwargs; ok (chars s ++ rest)
format (argument name ∷ more) kwargs = do
  value ← or_raise (lookup (chars name) kwargs) key_error
  rest ← format more kwargs
  ok (value ++ rest)

-- `_default_attributes`
abbrev pub default_attributes : Dict Text Text
default_attributes = arguments (chars "+") (chars "+") (chars "+") (chars "+") (chars "+")

-- `if kwargs`
abbrev pub or_default : Dict Text Text → Dict Text Text
or_default [] = default_attributes
or_default (k ∷ kwargs) = k ∷ kwargs

-- `path`: None for a type that there is not.
unfoldable pub path : Text → Text → Dict Text Text → Result (Option Text)
path topic_type name kwargs = elim (lookup (map lower_char topic_type) topics) [
  | none ↦ ok none
  | some names ↦ do
    info ← or_raise (lookup (map lower_char name) names) key_error
    topic ← format info.path (or_default kwargs)
    ok (some topic)
]

-- `request`, `response` and `event`
unfoldable pub request_topic : Text → Dict Text Text → Result (Option Text)
unfolding path
request_topic name kwargs = path (chars "request") name kwargs

unfoldable pub response_topic : Text → Dict Text Text → Result (Option Text)
unfolding path
response_topic name kwargs = path (chars "response") name kwargs

unfoldable pub event_topic : Text → Dict Text Text → Result (Option Text)
unfolding path
event_topic name kwargs = path (chars "event") name kwargs

-- `constructor`. That of the table is never None.
unfoldable pub constructor_of : Text → Text → Result (Option Constructor)
constructor_of topic_type name = elim (lookup (map lower_char topic_type) topics) [
  | none ↦ ok none
  | some names ↦ do
    info ← or_raise (lookup (map lower_char name) names) key_error
    ok (some info.constructor)
]

-- What `request_message` and the two others return: the topic, and what the message is made of.
pub record Message : Type 0 where
  pub topic : Text
  pub constructor : Constructor
  pub kwargs : Dict Text Text

abbrev pub message_of : Dict Text Info → Text → Dict Text Text → Result (Option Message)
message_of names name [] = ok none
message_of names name (k ∷ kwargs) = do
  info ← or_raise (lookup name names) key_error
  topic ← format info.path (k ∷ kwargs)
  ok (some (record { topic = topic; constructor = info.constructor; kwargs = k ∷ kwargs }))

unfoldable pub request_message : Text → Dict Text Text → Result (Option Message)
request_message = message_of requests

unfoldable pub response_message : Text → Dict Text Text → Result (Option Message)
response_message = message_of responses

unfoldable pub event_message : Text → Dict Text Text → Result (Option Message)
event_message = message_of events
