-- ===== src/RabbitMq/Config/Ranges.antt =====
-- The numbers among the settings that RabbitMqClient.cpp of rabbitmq/RabbitmqPlugin reads.
use graftcode_extensions.Base.{
  ℕ, ◌^◌, ◌<◌, Option, none, some, arith, Bytes, codes, Bool-cases, inl, inr,
}
use graftcode_extensions.Base.Int.{ℤ, pos, negsuc}
use graftcode_extensions.Json.{JsonLibrary, is_object}
use graftcode_extensions.Json.Read.{integer_at}
use graftcode_extensions.RabbitMq.Config.{
  RabbitMqClientConfig, positive_below, apply_rabbit_mq_config, apply_found, search_source,
  parse_json_config_source, apply_config_source,
}

-- The port is one of TCP's, and the timeout one that a wait can take.
pub record InRange (c : RabbitMqClientConfig) : Type 0 where
  pub port : (0 < c.port) × (c.port < 2 ^ 16)
  pub timeout : (0 < c.rpc_timeout_ms) × (c.rpc_timeout_ms < 2 ^ 32)

positive_below-range :
    (limit target : ℕ) (o : Option ℤ)
    → (0 < target) × (target < limit)
    → (0 < positive_below limit target o) × (positive_below limit target o < limit)
unfolding positive_below
positive_below-range limit target none h = h
positive_below-range limit target (some (negsuc n)) h = h
positive_below-range limit target (some (pos n)) h = ground (arith, h.0, h.1)

module _ (json : JsonLibrary) where
  open json use {Json, view}

  applied-InRange :
      (node : Json) (c : RabbitMqClientConfig)
      → InRange c
      → InRange (apply_rabbit_mq_config json node c)
  unfolding apply_rabbit_mq_config
  applied-InRange node c h = elim (Bool-cases (is_object (view node))) [
    | inl y ↦
        rw (apply_rabbit_mq_config, y)
          (record {
            port =
                positive_below-range (2 ^ 16) c.port (integer_at json (codes "port") node) h.port;
            timeout =
                positive_below-range (2 ^ 32) c.rpc_timeout_ms
                  (integer_at json (codes "rpcTimeoutMs") node) h.timeout;
          })
    | inr n ↦ rw (apply_rabbit_mq_config, n) h
  ]

  found-InRange :
      (found : Option Json) (c : RabbitMqClientConfig)
      → InRange c
      → InRange (apply_found json found c)
  unfolding apply_found
  found-InRange none c h = h
  found-InRange (some node) c h = applied-InRange node c h

  -- Whatever a configuration source says, reading it keeps the port within 1 to 65535 and the
  -- timeout within 1 to 2 ^ 32 - 1: values outside are passed over.
  pub apply_config_source-InRange :
      (read_file : Bytes → Option Bytes) (source : Bytes) (c : RabbitMqClientConfig)
      → InRange c
      → InRange (apply_config_source json read_file source c)
  unfolding apply_config_source
  apply_config_source-InRange read_file source c h =
      found-InRange (search_source json (parse_json_config_source json read_file source)) c h
