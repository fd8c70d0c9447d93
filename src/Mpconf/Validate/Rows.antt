-- ===== src/Mpconf/Validate/Rows.antt =====
-- mpconf/validate.py, `server_rows_errors`: the forwards and the mounts of each server.
use magic_ai_router.Prelude.{
  ℕ, suc, Bool, true, false, not, ◌&&◌, ◌||◌, Option, none, some, List, [], ◌∷◌, ◌++◌, Text, codes,
  any, contains, strip, is_space, has_char, starts_with, text_key, if◌then◌else◌,
}
use magic_ai_router.Json.{Json, Fields, null, str, arr, obj, items}
use magic_ai_router.Mpconf.Validate.{
  Label, Problem, ssh_shape, forwards_shape, forward_shape, forward_port, forward_host, nfs_port,
  mounts_shape, mount_shape, mount_unnamed, mount_repeated, mount_remote_path, mount_local_dir,
  port_max, as_strict_int, is_unset, get_or_null, report, within, ssh_svc, nfs_svc, label,
  items_or_nil,
}

abbrev is_empty : Text → Bool
is_empty [] = true
is_empty (_ ∷ _) = false

-- `None` stands for 127.0.0.1.
abbrev bad_host : Json → Bool
bad_host null = false
bad_host (str s) = is_empty (strip s) || any is_space s || has_char b':' s
bad_host _ = true

abbrev bad_port_of : Text → Fields → Bool
bad_port_of key row = not (within 1 port_max (as_strict_int (get_or_null key row)))

abbrev forward_row : Label → ℕ → Json → List Problem
forward_row tname i (obj row) =
    report (bad_port_of (codes "local_port") row) (forward_port tname i (codes "local_port"))
    ++ report (bad_port_of (codes "remote_port") row) (forward_port tname i (codes "remote_port"))
    ++ report (bad_host (get_or_null (codes "remote_host") row)) (forward_host tname i)
forward_row tname i _ = forward_shape tname i ∷ []

-- The rows are numbered from 1.
abbrev forward_rows : Label → ℕ → List Json → List Problem
forward_rows tname i [] = []
forward_rows tname i (f ∷ fs) = forward_row tname (suc i) f ++ forward_rows tname (suc i) fs

abbrev is_absolute : Json → Bool
is_absolute (str s) = starts_with (codes "/") (strip s)
is_absolute _ = false

-- What the row's name reports, and the names that have been seen behind it.
abbrev mount_name : Label → ℕ → List Text → Json → List Problem × List Text
mount_name tname i names (str s) =
    if is_empty (strip s)
    then (mount_unnamed tname i ∷ [], names)
    else (if contains (strip s) names
        then (mount_repeated tname (strip s) ∷ [], names)
        else ([], strip s ∷ names))
mount_name tname i names _ = (mount_unnamed tname i ∷ [], names)

abbrev mount_paths : ℕ → Fields → List Problem
mount_paths i row =
    let who = label (get_or_null (codes "name") row) i in
    let local = get_or_null (codes "local_dir") row in
    report (not (is_absolute (get_or_null (codes "remote_path") row))) (mount_remote_path who)
    ++ report (not (is_unset local) && not (is_absolute local)) (mount_local_dir who)

abbrev mount_rows : Label → ℕ → List Text → List Json → List Problem
mount_rows tname i names [] = []
mount_rows tname i names (obj row ∷ rows) =
    let checked = mount_name tname (suc i) names (get_or_null (codes "name") row) in
    checked.0 ++ mount_paths (suc i) row ++ mount_rows tname (suc i) checked.1 rows
mount_rows tname i names (_ ∷ rows) =
    mount_shape tname (suc i) ∷ mount_rows tname (suc i) names rows

abbrev mounts_errors : Label → Json → List Problem
mounts_errors tname null = []
mounts_errors tname (arr rows) = mount_rows tname 0 [] (items rows)
mounts_errors tname _ = mounts_shape tname ∷ []

unfoldable pub nfs_errors : Label → Fields → List Problem
nfs_errors tname nfs =
    let port = get_or_null (codes "local_port") nfs in
    report (not (is_unset port) && not (within 1 port_max (as_strict_int port))) (nfs_port tname)
    ++ mounts_errors tname (get_or_null (codes "mounts") nfs)

abbrev old_ssh_errors : Label → Json → List Problem
old_ssh_errors tname null = []
old_ssh_errors tname (obj _) = []
old_ssh_errors tname _ = ssh_shape tname ∷ []

abbrev forwards_errors : Label → Json → List Problem
forwards_errors tname null = []
forwards_errors tname (arr rows) = forward_rows tname 0 (items rows)
forwards_errors tname _ = forwards_shape tname ∷ []

abbrev server_errors : ℕ → Json → List Problem
server_errors i (obj t) =
    let tname = label (get_or_null (codes "name") t) i in
    old_ssh_errors tname (get_or_null (codes "ssh") t)
    ++ forwards_errors tname (get_or_null (codes "forwards") (ssh_svc t))
    ++ elim (nfs_svc t) [ none ↦ [] | some nfs ↦ nfs_errors tname nfs ]
server_errors i _ = []

abbrev servers_errors : ℕ → List Json → List Problem
servers_errors i [] = []
servers_errors i (t ∷ ts) = server_errors i t ++ servers_errors (suc i) ts

unfoldable pub server_rows_errors : Fields → Option (List Problem)
server_rows_errors mp = elim (items_or_nil (get_or_null (codes "servers") mp)) [
  | none ↦ none
  | some ts ↦ some (servers_errors 0 ts)
]
