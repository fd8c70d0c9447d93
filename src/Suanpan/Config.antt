-- ===== src/Suanpan/Config.antt =====
-- The schemas of suanpan/config.py, as the gateway holds them after validation.
use magic_ai_router.Prelude.{ℕ, Bool, Option, List, Text, Dict}

-- `auth_header: Literal["x-api-key", "Authorization"]`
pub data AuthHeader : Type 0 where
  x_api_key authorization : AuthHeader

pub data Protocol : Type 0 where
  anthropic openai : Protocol

pub record ProviderConfig : Type 0 where
  pub id : Option Text
  pub base_url : Text
  pub api_key : Option Text
  pub api_key_env : Option Text
  pub auth_header : Option AuthHeader
  pub enabled : Bool
  pub anthropic_native : Bool
  pub protocol : Protocol
  pub responses_base_url : Option Text
  pub models : List Text

pub record RouterConfig : Type 0 where
  pub default : Option Text

pub record Rule : Type 0 where
  pub match_prefix : Text
  pub route_to : Text

pub record UsageLogConfig : Type 0 where
  pub enabled : Bool
  pub path : Text

pub record AppConfig : Type 0 where
  pub listen_port : ℕ
  pub api_key : Option Text
  pub request_timeout_s : ℕ
  pub body_limit_mb : ℕ
  pub usage_log : UsageLogConfig
  pub providers : Dict Text ProviderConfig
  pub router : RouterConfig
  pub rules : List Rule
