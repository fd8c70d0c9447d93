-- ===== src/Shared/ProviderAuth/Registry.antt =====
-- shared/provider_auth.py, `PROVIDER_REGISTRY`: what the program knows of each provider.
use magic_ai_router.Prelude.{
  Bool, true, false, Option, none, some, List, [], ◌∷◌, Text, Dict, codes,
}

-- A card of `endpoints`.
pub record Endpoint : Type 0 where
  pub base_url : Text
  pub anthropic_native : Option Bool
  pub auth_header : Option Text

pub data AuthStyle : Type 0 where
  bearer raw : AuthStyle

pub record BalanceApi : Type 0 where
  pub url : Text
  pub style : AuthStyle
  pub label : Text
  pub parser : Text

pub record ProviderCard : Type 0 where
  pub label : Text
  pub hosts : List Text
  pub base_url : Option Text
  pub anthropic_native : Bool
  pub endpoints : Dict Text Endpoint
  pub balance_apis : List BalanceApi
  pub model_usage_url : Option (Text × Text)

abbrev deepseek : ProviderCard
deepseek = record {
  label = codes "DeepSeek";
  hosts = codes "api.deepseek.com" ∷ [];
  base_url = some (codes "https://api.deepseek.com");
  anthropic_native = false;
  endpoints =
      (
        codes "anthropic",
        record {
          base_url = codes "https://api.deepseek.com";
          anthropic_native = some false;
          auth_header = none;
        },
      )
      ∷ (
        codes "openai",
        record {
          base_url = codes "https://api.deepseek.com";
          anthropic_native = none;
          auth_header = none;
        },
      )
      ∷ (
        codes "responses",
        record {
          base_url = codes "https://api.deepseek.com";
          anthropic_native = none;
          auth_header = none;
        },
      )
      ∷ [];
  balance_apis =
      record {
        url = codes "https://api.deepseek.com/user/balance";
        style = bearer;
        label = codes "余额";
        parser = codes "deepseek_balance";
      }
      ∷ [];
  model_usage_url = none;
}

abbrev glm : ProviderCard
glm = record {
  label = codes "GLM";
  hosts = codes "bigmodel.cn" ∷ [];
  base_url = some (codes "https://open.bigmodel.cn/api/anthropic");
  anthropic_native = true;
  endpoints =
      (
        codes "anthropic",
        record {
          base_url = codes "https://open.bigmodel.cn/api/anthropic";
          anthropic_native = some true;
          auth_header = none;
        },
      )
      ∷ (
        codes "openai",
        record {
          base_url = codes "https://open.bigmodel.cn/api/paas/v4";
          anthropic_native = none;
          auth_header = none;
        },
      )
      ∷ (
        codes "responses",
        record {
          base_url = codes "https://open.bigmodel.cn/api/v1";
          anthropic_native = none;
          auth_header = none;
        },
      )
      ∷ [];
  balance_apis =
      record {
        url = codes "https://open.bigmodel.cn/api/monitor/usage/quota/limit";
        style = raw;
        label = codes "Coding Plan";
        parser = codes "glm_quota_limits";
      }
      ∷ record {
        url = codes "https://www.bigmodel.cn/api/biz/account/query-customer-account-report";
        style = raw;
        label = codes "账户余额";
        parser = codes "glm_account";
      }
      ∷ [];
  model_usage_url =
      some
        (codes "https://open.bigmodel.cn/api/monitor/usage/model-usage", codes "glm_model_usage");
}

abbrev kimi : ProviderCard
kimi = record {
  label = codes "KIMI";
  hosts = codes "api.kimi.com" ∷ [];
  base_url = some (codes "https://api.kimi.com/coding");
  anthropic_native = true;
  endpoints =
      (
        codes "anthropic",
        record {
          base_url = codes "https://api.kimi.com/coding";
          anthropic_native = some true;
          auth_header = none;
        },
      )
      ∷ (
        codes "openai",
        record {
          base_url = codes "https://api.moonshot.cn/v1";
          anthropic_native = none;
          auth_header = none;
        },
      )
      ∷ (
        codes "responses",
        record {
          base_url = codes "https://api.kimi.com/coding";
          anthropic_native = none;
          auth_header = none;
        },
      )
      ∷ [];
  balance_apis =
      record {
        url = codes "https://api.kimi.com/coding/v1/usages";
        style = bearer;
        label = codes "Coding Plan";
        parser = codes "kimi_usage";
      }
      ∷ [];
  model_usage_url = none;
}

abbrev openai : ProviderCard
openai = record {
  label = codes "OpenAI";
  hosts = codes "api.openai.com" ∷ [];
  base_url = none;
  anthropic_native = false;
  endpoints =
      (
        codes "openai",
        record {
          base_url = codes "https://api.openai.com/v1";
          anthropic_native = none;
          auth_header = none;
        },
      )
      ∷ (
        codes "responses",
        record {
          base_url = codes "https://api.openai.com/v1";
          anthropic_native = none;
          auth_header = none;
        },
      )
      ∷ [];
  balance_apis = [];
  model_usage_url = none;
}

abbrev anthropic : ProviderCard
anthropic = record {
  label = codes "Anthropic";
  hosts = codes "api.anthropic.com" ∷ [];
  base_url = some (codes "https://api.anthropic.com");
  anthropic_native = true;
  endpoints =
      (
        codes "anthropic",
        record {
          base_url = codes "https://api.anthropic.com";
          anthropic_native = some true;
          auth_header = some (codes "x-api-key");
        },
      )
      ∷ (
        codes "openai",
        record {
          base_url = codes "https://api.anthropic.com/v1";
          anthropic_native = none;
          auth_header = none;
        },
      )
      ∷ [];
  balance_apis = [];
  model_usage_url = none;
}

abbrev openrouter : ProviderCard
openrouter = record {
  label = codes "OpenRouter";
  hosts = codes "openrouter.ai" ∷ [];
  base_url = some (codes "https://openrouter.ai/api");
  anthropic_native = false;
  endpoints =
      (
        codes "anthropic",
        record {
          base_url = codes "https://openrouter.ai/api";
          anthropic_native = some false;
          auth_header = none;
        },
      )
      ∷ (
        codes "openai",
        record {
          base_url = codes "https://openrouter.ai/api/v1";
          anthropic_native = none;
          auth_header = none;
        },
      )
      ∷ [];
  balance_apis = [];
  model_usage_url = none;
}

abbrev qwen : ProviderCard
qwen = record {
  label = codes "通义 Qwen";
  hosts = codes "dashscope.aliyuncs.com" ∷ codes "maas.aliyuncs.com" ∷ [];
  base_url = some (codes "https://dashscope.aliyuncs.com/apps/anthropic");
  anthropic_native = false;
  endpoints =
      (
        codes "anthropic",
        record {
          base_url = codes "https://dashscope.aliyuncs.com/apps/anthropic";
          anthropic_native = some false;
          auth_header = none;
        },
      )
      ∷ (
        codes "openai",
        record {
          base_url = codes "https://dashscope.aliyuncs.com/compatible-mode/v1";
          anthropic_native = none;
          auth_header = none;
        },
      )
      ∷ [];
  balance_apis = [];
  model_usage_url = none;
}

abbrev siliconflow : ProviderCard
siliconflow = record {
  label = codes "硅基流动";
  hosts = codes "siliconflow.cn" ∷ [];
  base_url = some (codes "https://api.siliconflow.cn");
  anthropic_native = false;
  endpoints =
      (
        codes "anthropic",
        record {
          base_url = codes "https://api.siliconflow.cn";
          anthropic_native = some false;
          auth_header = none;
        },
      )
      ∷ (
        codes "openai",
        record {
          base_url = codes "https://api.siliconflow.cn/v1";
          anthropic_native = none;
          auth_header = none;
        },
      )
      ∷ [];
  balance_apis = [];
  model_usage_url = none;
}

abbrev minimax : ProviderCard
minimax = record {
  label = codes "MiniMax";
  hosts = codes "minimax.io" ∷ codes "minimax.cn" ∷ [];
  base_url = some (codes "https://api.minimax.io/anthropic");
  anthropic_native = false;
  endpoints =
      (
        codes "anthropic",
        record {
          base_url = codes "https://api.minimax.io/anthropic";
          anthropic_native = some false;
          auth_header = none;
        },
      )
      ∷ [];
  balance_apis = [];
  model_usage_url = none;
}

abbrev volces : ProviderCard
volces = record {
  label = codes "火山方舟";
  hosts = codes "volces.com" ∷ [];
  base_url = none;
  anthropic_native = false;
  endpoints =
      (
        codes "openai",
        record {
          base_url = codes "https://ark.cn-beijing.volces.com/api/v3";
          anthropic_native = none;
          auth_header = none;
        },
      )
      ∷ [];
  balance_apis = [];
  model_usage_url = none;
}

abbrev pub provider_registry : Dict Text ProviderCard
provider_registry =
    (codes "deepseek", deepseek)
    ∷ (codes "glm", glm)
    ∷ (codes "kimi", kimi)
    ∷ (codes "openai", openai)
    ∷ (codes "anthropic", anthropic)
    ∷ (codes "openrouter", openrouter)
    ∷ (codes "qwen", qwen)
    ∷ (codes "siliconflow", siliconflow)
    ∷ (codes "minimax", minimax)
    ∷ (codes "volces", volces)
    ∷ []
