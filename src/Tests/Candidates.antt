-- ===== src/Tests/Candidates.antt =====
-- Runs of the checks of mpconf/validate.py.
use magic_ai_router.Prelude.{◌≡◌, refl, none, some, [], ◌∷◌, Text, codes, strip, has_char}
use magic_ai_router.Json.{ℤ, pos, Json, Fields, Items, int, str, arr, obj, nil, cons, end, field}
use magic_ai_router.Mpconf.Validate.{
  named, bad_port, bad_retention, forward_port, forward_host, top_level, forward_of, port_conflict,
  forward_repeated, numeric_errors, items_or_nil,
}
use magic_ai_router.Mpconf.Validate.Rows.{server_rows_errors}
use magic_ai_router.Mpconf.Validate.Ports.{port_conflict_errors, forward_port_of}
use magic_ai_router.Mpconf.Validate.Distinct.{Distinct}
use magic_ai_router.Mpconf.Validate.Listeners.{as_json, listens}
use magic_ai_router.Mpconf.Validate.Listening.{port_conflict_errors-Distinct}

abbrev forward : Text → Json → Json
forward host port = obj (
    field (codes "local_port") (int (pos 8080))
      (field (codes "remote_port") port (field (codes "remote_host") (str host) end)))

abbrev server : Items → Json
server rows = obj (
    field (codes "name") (str (codes "a")) (
      field (codes "services")
        (obj (field (codes "ssh") (obj (field (codes "forwards") (arr rows) end)) end)) end))

abbrev candidate : ℤ → Items → Fields
candidate port rows =
    field (codes "socks5_port") (int port)
      (field (codes "servers") (arr (cons (server rows) nil)) end)

abbrev one_forward : Items
one_forward = cons (forward (codes "db") (int (pos 5432))) nil

abbrev two_forwards : Items
two_forwards = cons (forward (codes "::1") (int (pos 0))) one_forward

abbrev gateway : Fields
gateway = field (codes "listen_port") (int (pos 9000)) end

abbrev name : Json
name = str (codes "a")

numeric_errors_tests :
    (numeric_errors (candidate (pos 1080) nil) ≡ [])
    × (numeric_errors (candidate (pos 65536) nil) ≡ bad_port (codes "socks5_port") ∷ [])
    × (numeric_errors (field (codes "retention_days") (str []) end) ≡ bad_retention ∷ [])
unfolding numeric_errors
numeric_errors_tests = (refl, refl, refl)

server_rows_errors_tests :
    (server_rows_errors (candidate (pos 1080) one_forward) ≡ some [])
    × (server_rows_errors (candidate (pos 1080) two_forwards)
        ≡ some
            (forward_port (named name) 1 (codes "remote_port") ∷ forward_host (named name) 1 ∷ []))
unfolding server_rows_errors items_or_nil strip has_char
server_rows_errors_tests = (refl, refl)

port_conflict_errors_tests :
    (port_conflict_errors (some (candidate (pos 9000) two_forwards)) (some gateway)
      ≡ some (
          forward_repeated (named name) (pos 8080)
          ∷ port_conflict
              (top_level (codes "socks5_port"))
              (top_level (codes "listen_port"))
              (pos 9000)
          ∷ []))
    × (port_conflict_errors (some (candidate (pos 8080) one_forward)) none
        ≡ some (
            port_conflict (top_level (codes "socks5_port")) (forward_of (named name)) (pos 8080)
            ∷ []))
unfolding port_conflict_errors items_or_nil forward_port_of
port_conflict_errors_tests = (refl, refl)

port_conflict_errors-Distinct_example :
    Distinct (listens (as_json (some (candidate (pos 1080) one_forward))) (as_json (some gateway)))
unfolding port_conflict_errors items_or_nil forward_port_of
port_conflict_errors-Distinct_example =
    port_conflict_errors-Distinct (some (candidate (pos 1080) one_forward)) (some gateway) refl
