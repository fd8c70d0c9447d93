-- ===== src/Mpconf/Validate/Listeners.antt =====
-- The local ports that a candidate of mpconf/validate.py names, read off its JSON by themselves.
use magic_ai_router.Prelude.{
  Bool, true, false, ◌&&◌, ◌||◌, Option, none, some, List, [], ◌∷◌, ◌++◌, Text, codes, leb,
  text_key, if◌then◌else◌,
}
use magic_ai_router.Json.{ℤ, pos, Json, bool, int, arr, obj, Fields, get, items, truthy}

-- The value behind a path of keys.
abbrev pub at : List Text → Option Json → Option Json
at [] v = v
at (key ∷ keys) (some (obj fs)) = at keys (get key fs)
at (key ∷ keys) _ = none

-- A whole number, and one that can be a port
abbrev pub number : Option Json → List ℤ
number (some (int p)) = p ∷ []
number _ = []

abbrev pub port_number : Option Json → List ℤ
port_number (some (int (pos n))) = if leb 1 n && leb n 65535 then pos n ∷ [] else []
port_number _ = []

abbrev pub rows : Option Json → List Json
rows (some (arr xs)) = items xs
rows _ = []

-- The forward is not switched off.
abbrev pub forward_ports : Json → List ℤ
forward_ports f = elim (at (codes "enabled" ∷ []) (some f)) [
  | some (bool false) ↦ []
  | _ ↦ number (at (codes "local_port" ∷ []) (some f))
]

abbrev pub is_on : Option Json → Bool
is_on (some (bool true)) = true
is_on _ = false

abbrev pub is_filled : Option Json → Bool
is_filled (some v) = truthy v
is_filled none = false

-- The NFS service is enabled or has mounts.
abbrev pub nfs_ports : Option Json → List ℤ
nfs_ports nfs =
    if is_on (at (codes "enabled" ∷ []) nfs) || is_filled (at (codes "mounts" ∷ []) nfs)
    then port_number (at (codes "local_port" ∷ []) nfs)
    else []

abbrev pub gather : (Json → List ℤ) → List Json → List ℤ
gather f [] = []
gather f (v ∷ vs) = f v ++ gather f vs

abbrev pub server_listens : Json → List ℤ
server_listens t =
    gather forward_ports
      (rows (at (codes "services" ∷ codes "ssh" ∷ codes "forwards" ∷ []) (some t)))
    ++ nfs_ports (at (codes "services" ∷ codes "nfs" ∷ []) (some t))

abbrev pub numbers : Option Json → List Text → List ℤ
numbers v [] = []
numbers v (key ∷ keys) = number (at (key ∷ []) v) ++ numbers v keys

abbrev pub as_json : Option Fields → Option Json
as_json none = none
as_json (some fs) = some (obj fs)

abbrev pub listens : Option Json → Option Json → List ℤ
listens mp sp =
    (numbers mp (
        codes "socks5_port"
        ∷ codes "http_listen_port"
        ∷ codes "capture_port"
        ∷ codes "config_port"
        ∷ [])
      ++ gather server_listens (rows (at (codes "servers" ∷ []) mp)))
    ++ number (at (codes "listen_port" ∷ []) sp)
