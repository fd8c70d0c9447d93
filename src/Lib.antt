-- ===== src/Lib.antt =====
-- Magic Stack: a menu bar program that routes the requests of AI agents to providers (the gateway,
-- suanpan/), keeps an SSH session with a local proxy (tunnel/), sets the host's proxy (sysctl/) and
-- stores all of it in two configuration files and the keychain (mpconf/). This library models parts
-- of the Python code by definitions that are translated from it, and proves what is listed below.
--
-- The parts, and how they interact. The gateway's handlers ask suanpan/router.py where a request
-- goes; the table of providers and rules that it reads is what a save of mpconf/config_state.py has
-- installed. services/gateway_watchdog.py audits the gateway's runtime and orders its rebuild. The
-- connection layer asks tunnel/retry_scheduler.py when to try again after a session was lost, and
-- tunnel/reconnect_trigger.py passes wake events on to it; sysctl/sys_proxy_controller.py reads the
-- session's state in each tick. mount/coordinator.py keeps sessions of its own, of the same kind, and
-- mounts over them. suanpan/compat.py changes a request and its answer for a provider of another
-- protocol.
--
--   Prelude             numbers, texts, lists, dictionaries and their lemmas
--   Json                the values of `json.loads` and `yaml.safe_load`
--   Suanpan/Config      suanpan/config.py: the records of a validated configuration
--   Suanpan/Router      suanpan/router.py: Marker has `extract_system_text`, `SUBAGENT_RE` and
--                       `strip_marker`; Target has `parse_route_target` and `first_tier_route`;
--                       Decide has `_sanitize_intent`, `_make_decision` and `decide_route`
--   Suanpan/Usage       suanpan/usage_extractor.py: `UsageExtractor`; Events has the frames of
--                       `_consume_sse`
--   Suanpan/Compat      suanpan/compat.py: `OpenAIChatToAnthropicSSE`; Lines has the lines that `feed` reads,
--                       Translate `_on_chunk`, `feed` and `finish`, Protocol the order of the
--                       events; Normalize has `normalize_body`; Request and Options have
--                       `anthropic_to_openai_request`, with `openai_max_tokens_field` of
--                       shared/provider_auth.py
--   Suanpan/Middleware  suanpan/middleware.py: `APIKeyMiddleware` and `BodyLimitMiddleware`
--   Tunnel/Retry        tunnel/retry_scheduler.py: `RetryScheduler`, with its timer threads
--   Tunnel/Trigger      tunnel/reconnect_trigger.py: `ReconnectTrigger`
--   Tunnel/HostKeyFlow  tunnel/host_key_flow.py: `HostKeyFlow`
--   Tunnel/Session      tunnel/ssh_session.py: `SshSession` and `check_and_recover`, with `start` and
--                       `is_host_key_changed` of `SSHMonitor` in tunnel/proxy.py
--   Tunnel/Coordinator  tunnel/connection_coordinator.py: `ConnectionCoordinator`; Runs has its calls in
--                       any order, and what reaches a session that has left the registry
--   Tunnel/Framer       tunnel/http_framer.py: `parse_framing`, `read_head` and the `relay_` functions;
--                       Stream has the two ends of a copy, Integers has `int`
--   Mpconf/Transaction  mpconf/config_state.py: `commit`, `_rollback`, `recover`; Run has the state,
--                       the calls and the monad, and Run/Triple its rules
--   Mpconf/Validate     mpconf/validate.py: `numeric_errors`; Rows has `server_rows_errors`, Ports has
--                       `port_conflict_errors`, and Listeners the ports read off the JSON
--   Mpconf/Servers      mpconf/config.py: `_normalize_server` and what it calls, `proxy_server`; Ids has
--                       `assign_stable_ids`
--   Mounts/Coordinator  mount/coordinator.py: `MountCoordinator`, with `resolve_mount_dir` of
--                       mpconf/config.py; Runs has the tick, the ends of jobs, and all calls but
--                       unmount_all in any order
--   Shared/Netloc       shared/netloc.py; Ipv6 has what `ipaddress.IPv6Address` takes
--   Shared/ProviderAuth     shared/provider_auth.py: `build_outbound_headers` and the keys; Registry has
--                       `PROVIDER_REGISTRY`
--   Shared/SubprocessMonitor  shared/subprocess_monitor.py: `SubprocessMonitor`
--   Sysctl/ProxyController  sysctl/sys_proxy_controller.py: `SystemProxyController`
--   Sysctl/InstanceOwner  sysctl/instance_owner.py: `InstanceOwner`, run by several processes at once
--   Services/Watchdog   services/gateway_watchdog.py: `GatewayWatchdog`
--   Tests               concrete runs, and the theorems applied to them
--
-- State and operations. An object is a record of its fields, and a method a function from the record
-- to the new one with the method's result. Where threads or a process's end matter they are part of
-- the state: the retry scheduler stands beside the threads that have not ended, the watchdog and the
-- mounts beside their pending jobs, and a save beside a list that says of each call of the system whether it is
-- done, refused or never reached. Methods are single steps, and the order of steps is free; of those
-- of ConnectionCoordinator that hold no lock (handle_retry, start, apply_autostarts, _start_proxy_ssh and
-- the callbacks of the host key) it is assumed that no other call comes between. The clock, the answers of audits and of the host's tools are inputs, and so is how many
-- bytes a read finds; the limit that asyncio puts on a line is left out.
--
-- Texts are lists of code points. A Python dictionary is an association list, in its order, with a
-- key's first entry counting. Numbers are natural: Python's integers have no bound, and no modelled
-- operation leaves the natural numbers; times stand for `time.monotonic` in any one unit. The
-- loops of Tunnel/Framer run on fuel, the length of what they read or the limit, and it is proved that
-- this is enough; all other functions are structurally recursive.
--
-- Parameters: `str` of a value that is no text and of an exit code; `json.loads` of a response's bytes;
-- `json.dumps`; `os.environ.get`. The two serialised configurations and the journal
-- that `json.load` reads back are inputs of a save.
--
-- Not modelled: log lines and error texts of the exceptions; `prepare`, `load` and `update_mp` of
-- mpconf/config_state.py; the conflicts of mount directories; the validators of suanpan/config.py;
-- the handlers of tunnel/proxy.py; the conversion of responses in suanpan/compat.py, and the writing
-- of its events as JSON; the commands of mount/; capture/, shellui/ and the other services.
pub mod Prelude
pub mod Json
pub mod Suanpan
pub mod Tunnel
pub mod Mpconf
pub mod Mounts
pub mod Shared
pub mod Sysctl
pub mod Services
pub mod Tests
