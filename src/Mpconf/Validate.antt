-- ===== src/Mpconf/Validate.antt =====
-- mpconf/validate.py: the checks of a candidate before it is saved. A line of the report is its
-- kind and what it names. Here are its scalar fields and the service nodes; Rows has the checks of
-- each server, Ports the conflicts of ports.
pub mod Rows
pub mod Ports
pub mod Distinct
pub mod Listeners
pub mod Listening
use magic_ai_router.Prelude.{
  ℕ, Bool, true, false, not, ◌&&◌, Option, none, some, List, [], ◌∷◌, ◌++◌, map, Text, codes, leb,
  text_key, ◌==◌, if◌then◌else◌,
}
use magic_ai_router.Json.{
  ℤ, pos, negsuc, Json, Fields, null, bool, int, str, arr, obj, end, field, get, items, truthy,
}

-- `_t.get("name") or f"#{_ti}"`
pub data Label : Type 0 where
  named : Json → Label
  numbered : ℕ → Label

-- A listener, as the report names it.
pub data Owner : Type 0 where
  top_level : Text → Owner
  forward_of : Label → Owner
  nfs_of : Label → Owner

pub data Problem : Type 0 where
  bad_port : Text → Problem
  bad_retention : Problem
  ssh_shape : Label → Problem
  forwards_shape : Label → Problem
  forward_shape : Label → ℕ → Problem
  forward_port : Label → ℕ → Text → Problem
  forward_host : Label → ℕ → Problem
  nfs_port : Label → Problem
  mounts_shape : Label → Problem
  mount_shape : Label → ℕ → Problem
  mount_unnamed : Label → ℕ → Problem
  mount_repeated : Label → Text → Problem
  mount_remote_path : Label → Problem
  mount_local_dir : Label → Problem
  forward_repeated : Label → ℤ → Problem
  port_conflict : Owner → Owner → ℤ → Problem

abbrev pub port_max : ℕ
port_max = 65535

abbrev retention_max : ℕ
retention_max = 3650

-- The int that `isinstance(value, int)` finds: `True` is 1 and `False` is 0.
abbrev as_int : Json → Option ℤ
as_int (int z) = some z
as_int (bool true) = some (pos 1)
as_int (bool false) = some (pos 0)
as_int _ = none

-- The int of `isinstance(value, int) and not isinstance(value, bool)`.
abbrev pub as_strict_int : Json → Option ℤ
as_strict_int (int z) = some z
as_strict_int _ = none

abbrev pub between : ℕ → ℕ → ℤ → Bool
between low high (pos n) = leb low n && leb n high
between low high (negsuc n) = false

-- `value in (None, "")`
abbrev pub is_unset : Json → Bool
is_unset null = true
is_unset (str []) = true
is_unset _ = false

-- `d.get(key)`, where a missing key counts as `None`
abbrev pub get_or_null : Text → Fields → Json
get_or_null key fs = elim (get key fs) [ none ↦ null | some v ↦ v ]

abbrev pub report : Bool → Problem → List Problem
report found p = if found then p ∷ [] else []

abbrev pub within : ℕ → ℕ → Option ℤ → Bool
within low high none = false
within low high (some z) = between low high z

abbrev pub mp_ports : List Text
mp_ports =
    codes "socks5_port" ∷ codes "http_listen_port" ∷ codes "capture_port" ∷ codes "config_port" ∷ []

abbrev port_errors : Fields → List Text → List Problem
port_errors mp [] = []
port_errors mp (key ∷ keys) =
    let port = get_or_null key mp in
    report (not (is_unset port) && not (within 1 port_max (as_int port))) (bad_port key)
    ++ port_errors mp keys

abbrev retention_errors : Json → List Problem
retention_errors null = []
retention_errors v = report (not (within 0 retention_max (as_int v))) bad_retention

unfoldable pub numeric_errors : Fields → List Problem
numeric_errors mp =
    port_errors mp mp_ports ++ retention_errors (get_or_null (codes "retention_days") mp)

abbrev services : Fields → Fields
services server = elim (get (codes "services") server) [ some (obj fs) ↦ fs | _ ↦ end ]

abbrev pub ssh_svc : Fields → Fields
ssh_svc server = elim (get (codes "ssh") (services server)) [ some (obj fs) ↦ fs | _ ↦ end ]

abbrev pub nfs_svc : Fields → Option Fields
nfs_svc server = elim (get (codes "nfs") (services server)) [ some (obj fs) ↦ some fs | _ ↦ none ]

abbrev pub label : Json → ℕ → Label
label name i = if truthy name then named name else numbered i

abbrev pub keys : Fields → List Json
keys end = []
keys (field k v fs) = str k ∷ keys fs

-- The items of `value or []`; none where Python raises a TypeError, as no such value is iterable.
abbrev iterate : Json → Option (List Json)
iterate (arr xs) = some (items xs)
iterate (obj fs) = some (keys fs)
iterate (str s) = some (map (λ c. str (c ∷ [])) s)
iterate _ = none

unfoldable pub items_or_nil : Json → Option (List Json)
items_or_nil v = if truthy v then iterate v else some []
