-- ===== src/Tests/Servers.antt =====
-- Runs of the reading of servers in mpconf/config.py.
use magic_ai_router.Prelude.{
  ◌≡◌, refl, true, none, some, List, [], ◌∷◌, Text, codes, text_key, strip, starts_with,
}
use magic_ai_router.Json.{pos, negsuc, Json, null, int, real, str, arr, obj, nil, cons, end, field}
use magic_ai_router.Tunnel.Framer.Integers.{parse_int}
use magic_ai_router.Mpconf.Servers.{
  Server, int_of, coerce_port, normalize_forward, normalize_mount_row, normalize_nfs, normalize_ssh,
  normalize_server, server_by_id, proxy_server,
}
use magic_ai_router.Mpconf.Servers.Idempotent.{server_json, normalize_server-again}
use magic_ai_router.Mpconf.Servers.Ids.{
  Row, assign, assign_stable_ids, DistinctIds, Kept, assign_stable_ids_lem, third_twin_refused,
}

reading : Unit {0}
unfolding strip starts_with parse_int int_of coerce_port normalize_forward normalize_mount_row
    normalize_nfs normalize_ssh normalize_server server_by_id proxy_server assign assign_stable_ids
reading = tt

abbrev text_of : Json → Text
text_of v = codes "?"

abbrev raw : Json
raw = obj (
    field (codes "id") (str (codes "t-1")) (
      field (codes "ssh")
        (obj (
          field (codes "port") (str (codes " 2222 "))
            (field (codes "host") (str (codes "h ")) end)))
        (field (codes "services")
          (obj (
            field (codes "ssh")
              (obj (
                field (codes "forwards")
                  (arr (
                    cons (obj (field (codes "local_port") (real (pos 80805) 1) end))
                      (cons null nil)))
                  end))
              end))
          end)))

abbrev read : Server
read = normalize_server text_of raw

normalize_server_tests :
    (read.ssh.port ≡ pos 2222)
    × (read.ssh.host ≡ codes "h")
    × (read.ssh.compression ≡ true)
    × (read.nfs.local_port ≡ pos 12049)
    × (coerce_port (int (negsuc 0)) (pos 7) ≡ pos 7)
    × (proxy_server (codes "gone") (read ∷ []) ≡ some read)
unfolding reading
normalize_server_tests = (refl, refl, refl, refl, refl, refl)

forwards_tests :
    read.forwards
    ≡ record {
      local_port = pos 8080;
      remote_host = codes "127.0.0.1";
      remote_port = pos 0;
      enabled = true;
    }
      ∷ []
unfolding reading
forwards_tests = refl

normalize_server-again_example : normalize_server text_of (server_json read) ≡ read
normalize_server-again_example = normalize_server-again text_of raw

abbrev row : Text → Row
row id = record { id = id; ident = codes "u@h:22"; basis = codes "u@h:22" }

abbrev two_rows : List Row
two_rows = row (codes "a") ∷ row [] ∷ []

abbrev two_named : List Row
two_named = row (codes "a") ∷ row (codes "u@h:22#2") ∷ []

assign_stable_ids_tests :
    (assign_stable_ids (λ b. b) two_rows ≡ some (two_named, 1))
    × (assign_stable_ids (λ b. b) (row (codes "a") ∷ row (codes "a") ∷ []) ≡ none)
unfolding reading
assign_stable_ids_tests = (refl, refl)

assign_stable_ids_lem_example : DistinctIds two_named × Kept two_rows two_named
unfolding reading
assign_stable_ids_lem_example = assign_stable_ids_lem (λ b. b) two_rows two_named 1 refl

third_twin_refused_example : assign_stable_ids (λ b. b) (row [] ∷ row [] ∷ row [] ∷ two_rows) ≡ none
third_twin_refused_example = third_twin_refused (λ b. b) (codes "u@h:22") (codes "u@h:22") two_rows
