-- ===== src/Mpconf/Servers/Idempotent.antt =====
-- mpconf/config.py: what the reading of a server gives is read as itself, so that a configuration
-- that was saved and read again stays as it is.
use magic_ai_router.Prelude.{
  ◌≡◌, refl, inl, inr, Bool, true, false, Option, none, some, List, [], ◌∷◌, Text, codes, strip,
  strip-strip, Bool-cases, if◌then◌else◌,
}
use magic_ai_router.Json.{
  ℤ, pos, Json, Fields, Items, null, bool, int, str, arr, obj, nil, cons, end, field,
}
use magic_ai_router.Mpconf.Validate.{between, get_or_null, port_max}
use magic_ai_router.Mpconf.Servers.{
  Forward, Mount, Nfs, AuthType, key, password, Ssh, Server, int_of, in_range_or, coerce_port,
  loopback_or, auth_of, as_fields, text_or_empty, stripped, normalize_forward, forward_list,
  normalize_forwards, normalize_mount_row, mount_list, normalize_mounts, normalize_nfs,
  normalize_ssh, normalize_server,
}

abbrev pub forward_fields : Forward → Fields
forward_fields f =
    (field (codes "local_port") (int f.local_port) (
      field (codes "remote_host") (str f.remote_host) (
        field (codes "remote_port") (int f.remote_port)
          (field (codes "enabled") (bool f.enabled) end))))

abbrev pub forward_json : Forward → Json
forward_json f = obj (forward_fields f)

abbrev pub mount_fields : Mount → Fields
mount_fields m =
    (field (codes "name") (str m.name) (
      field (codes "remote_path") (str m.remote_path) (
        field (codes "local_dir") (str m.local_dir)
          (field (codes "auto_mount") (bool m.auto_mount) end))))

abbrev pub mount_json : Mount → Json
mount_json m = obj (mount_fields m)

module _ {A : Type 0} (json : A → Json) where
  abbrev pub list_json : List A → Items
  list_json [] = nil
  list_json (x ∷ xs) = cons (json x) (list_json xs)

abbrev pub nfs_json : Nfs → Json
nfs_json n = obj (
    field (codes "enabled") (bool n.enabled) (
      field (codes "local_port") (int n.local_port) (
        field (codes "squash_to_ssh_user") (bool n.squash_to_ssh_user)
          (field (codes "mounts") (arr (list_json mount_json n.mounts)) end))))

abbrev pub auth_json : AuthType → Text
auth_json key = codes "key"
auth_json password = codes "password"

abbrev pub ssh_json : Ssh → Json
ssh_json s = obj (
    field (codes "user") (str s.user) (
      field (codes "host") (str s.host) (
        field (codes "port") (int s.port) (
          field (codes "auth_type") (str (auth_json s.auth_type)) (
            field (codes "ssh_key") (str s.ssh_key)
              (field (codes "compression") (bool s.compression) end))))))

abbrev ssh_service : Server → Json
ssh_service s = obj (
    field (codes "forwards") (arr (list_json forward_json s.forwards))
      (field (codes "autostart") (bool s.autostart) end))

abbrev pub server_json : Server → Json
server_json s = obj (
    field (codes "id") (str s.id) (
      field (codes "name") (str s.name) (
        field (codes "ssh") (ssh_json s.ssh) (
          field (codes "services")
            (obj (field (codes "ssh") (ssh_service s) (field (codes "nfs") (nfs_json s.nfs) end)))
            end))))

if-same : (b : Bool) (z : ℤ) → (if b then z else z) ≡ z
if-same true z = refl
if-same false z = refl

in_range_or-again :
    (o : Option ℤ) (fallback : ℤ)
    → in_range_or fallback (some (in_range_or fallback o)) ≡ in_range_or fallback o
in_range_or-again none fallback = if-same (between 1 port_max fallback) fallback
in_range_or-again (some z) fallback = elim (Bool-cases (between 1 port_max z)) [
  | inl inside ↦ rw inside (rw inside refl)
  | inr outside ↦ rw outside (if-same (between 1 port_max fallback) fallback)
]

coerce_port-coerce_port :
    (v : Json) (fallback : ℤ)
    → coerce_port (int (coerce_port v fallback)) fallback ≡ coerce_port v fallback
unfolding coerce_port int_of
coerce_port-coerce_port v fallback = in_range_or-again (int_of v) fallback

loopback_or-strip : (s : Text) → loopback_or (strip (loopback_or (strip s))) ≡ loopback_or (strip s)
unfolding strip
loopback_or-strip s = go (strip s) (strip-strip s)
  where
    go : (t : Text) → strip t ≡ t → loopback_or (strip (loopback_or t)) ≡ loopback_or t
    go [] h = refl
    go (c ∷ t) h = rw h refl

auth_of-auth_json : (a : AuthType) → auth_of (str (auth_json a)) ≡ a
auth_of-auth_json key = refl
auth_of-auth_json password = refl

module _ (text_of : Json → Text) where
  normalize_forward-again :
      (row : Fields)
      → normalize_forward text_of (forward_fields (normalize_forward text_of row))
        ≡ normalize_forward text_of row
  unfolding normalize_forward
  normalize_forward-again row =
      rw (coerce_port-coerce_port (get_or_null (codes "local_port") row) (pos 0)) (
        rw (coerce_port-coerce_port (get_or_null (codes "remote_port") row) (pos 0)) (
          rw (loopback_or-strip (text_or_empty text_of (get_or_null (codes "remote_host") row)))
            refl))

  forward_list-again :
      (rows : Items)
      → forward_list text_of (list_json forward_json (forward_list text_of rows))
        ≡ forward_list text_of rows
  forward_list-again nil = refl
  forward_list-again (cons (obj row) rows) =
      rw (normalize_forward-again row) (rw (forward_list-again rows) refl)
  forward_list-again (cons null rows) = forward_list-again rows
  forward_list-again (cons _ rows) = forward_list-again rows

  forwards-again :
      (v : Json)
      → forward_list text_of (list_json forward_json (normalize_forwards text_of v))
        ≡ normalize_forwards text_of v
  forwards-again (arr rows) = forward_list-again rows
  forwards-again null = refl
  forwards-again _ = refl

  stripped-again : (k : Text) (fs : Fields) → strip (stripped text_of k fs) ≡ stripped text_of k fs
  stripped-again k fs = strip-strip (text_or_empty text_of (get_or_null k fs))

  normalize_mount_row-again :
      (row : Fields)
      → normalize_mount_row text_of (mount_fields (normalize_mount_row text_of row))
        ≡ normalize_mount_row text_of row
  unfolding normalize_mount_row
  normalize_mount_row-again row = rw (stripped-again (codes "name") row) (
      rw (stripped-again (codes "remote_path") row)
        (rw (stripped-again (codes "local_dir") row) refl))

  mount_list-again :
      (rows : Items)
      → mount_list text_of (list_json mount_json (mount_list text_of rows))
        ≡ mount_list text_of rows
  mount_list-again nil = refl
  mount_list-again (cons (obj row) rows) =
      rw (normalize_mount_row-again row) (rw (mount_list-again rows) refl)
  mount_list-again (cons null rows) = mount_list-again rows
  mount_list-again (cons _ rows) = mount_list-again rows

  mounts-again :
      (v : Json)
      → mount_list text_of (list_json mount_json (normalize_mounts text_of v))
        ≡ normalize_mounts text_of v
  mounts-again (arr rows) = mount_list-again rows
  mounts-again null = refl
  mounts-again _ = refl

  normalize_nfs-again :
      (v : Json)
      → normalize_nfs text_of (nfs_json (normalize_nfs text_of v)) ≡ normalize_nfs text_of v
  unfolding normalize_nfs
  normalize_nfs-again v =
      rw (coerce_port-coerce_port (get_or_null (codes "local_port") (as_fields v)) (pos 12049))
        (rw (mounts-again (get_or_null (codes "mounts") (as_fields v))) refl)

  normalize_ssh-again :
      (v : Json)
      → normalize_ssh text_of (ssh_json (normalize_ssh text_of v)) ≡ normalize_ssh text_of v
  unfolding normalize_ssh
  normalize_ssh-again v =
      let ssh = as_fields v in
      rw (coerce_port-coerce_port (get_or_null (codes "port") ssh) (pos 22)) (
        rw (stripped-again (codes "user") ssh) (
          rw (stripped-again (codes "host") ssh) (
            rw (stripped-again (codes "ssh_key") ssh)
              (rw (auth_of-auth_json (auth_of (get_or_null (codes "auth_type") ssh))) refl))))

  pub normalize_server-again :
      (v : Json)
      → normalize_server text_of (server_json (normalize_server text_of v))
        ≡ normalize_server text_of v
  unfolding normalize_server
  normalize_server-again v =
      let raw = as_fields v in
      let services = as_fields (get_or_null (codes "services") raw) in
      let ssh_svc = as_fields (get_or_null (codes "ssh") services) in
      rw (stripped-again (codes "name") raw) (
        rw (normalize_ssh-again (get_or_null (codes "ssh") raw)) (
          rw (forwards-again (get_or_null (codes "forwards") ssh_svc))
            (rw (normalize_nfs-again (get_or_null (codes "nfs") services)) refl)))
