-- ===== src/ServiceBus/Amqp.antt =====
-- The AMQP messages that servicebus/ServiceBusPlugin reads and builds with the Azure SDK (third party):
-- just the parts that the plugin uses.
use graftcode_extensions.Base.{Option, none, some, List, [], ◌∷◌, ◌++◌, Bytes}

-- A value that is null, a string, or of another type, which no cast to a string accepts.
pub data AmqpValue : Type 0 where
  null : AmqpValue
  string : Bytes → AmqpValue
  other : AmqpValue

pub data MessageBody : Type 0 where
  binary : List Bytes → MessageBody
  amqp_value : AmqpValue → MessageBody
  other_body : MessageBody

pub record AmqpMessage : Type 0 where
  pub body : MessageBody
  pub message_id : AmqpValue
  pub correlation_id : AmqpValue
  pub reply_to : AmqpValue
  pub reply_to_group_id : Option Bytes
  pub group_id : Option Bytes
  pub reply_to_session_id : Option AmqpValue

unfoldable pub concat_sections : List Bytes → Bytes
concat_sections [] = []
concat_sections (section ∷ sections) = section ++ concat_sections sections

unfoldable pub extract_message_body : AmqpMessage → Bytes
unfolding concat_sections
extract_message_body m = elim m.body [
  | binary sections ↦ concat_sections sections
  | amqp_value (string text) ↦ text
  | amqp_value _ ↦ []
  | other_body ↦ []
]

unfoldable pub non_empty : Bytes → Option Bytes
non_empty [] = none
non_empty (c ∷ value) = some (c ∷ value)

unfoldable pub string_value : AmqpValue → Option Bytes
string_value (string text) = some text
string_value _ = none

unfoldable pub try_get_reply_to : AmqpMessage → Option Bytes
unfolding non_empty
try_get_reply_to m = elim m.reply_to [ string value ↦ non_empty value | _ ↦ none ]

-- The application property "ReplyToSessionId".
unfoldable pub session_property : Option AmqpValue → Option Bytes
unfolding non_empty
session_property (some (string value)) = non_empty value
session_property _ = none

unfoldable pub or_else : Option Bytes → Option Bytes → Option Bytes
or_else (some x) y = some x
or_else none y = y

unfoldable pub filled : Option Bytes → Option Bytes
unfolding non_empty
filled none = none
filled (some value) = non_empty value

unfoldable pub try_get_reply_session_id : AmqpMessage → Option Bytes
unfolding or_else filled session_property
try_get_reply_session_id m =
    or_else (filled m.reply_to_group_id) (session_property m.reply_to_session_id)
