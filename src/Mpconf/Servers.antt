-- ===== src/Mpconf/Servers.antt =====
-- mpconf/config.py: the shape of a server after it was read, with every key in place, and the
-- reading. A text is read as a number by `int`, whose digits are the ASCII ones here.
pub mod Ids
pub mod Idempotent
use magic_ai_router.Prelude.{
  ℕ, zero, suc, ◌^◌, ◌/◌, Bool, true, false, not, ◌&&◌, ◌||◌, Option, none, some, List, [], ◌∷◌,
  ◌++◌, Text, codes, strip, text_key, ◌==◌, if◌then◌else◌,
}
use magic_ai_router.Json.{
  ℤ, pos, negsuc, Json, Fields, Items, null, bool, int, real, str, arr, obj, nil, cons, end, field,
  get, items, truthy,
}
use magic_ai_router.Mpconf.Validate.{between, get_or_null, port_max}
use magic_ai_router.Tunnel.Framer.Integers.{parse_int, negated}

pub record Forward : Type 0 where
  pub local_port : ℤ
  pub remote_host : Text
  pub remote_port : ℤ
  pub enabled : Bool

pub record Mount : Type 0 where
  pub name : Text
  pub remote_path : Text
  pub local_dir : Text
  pub auto_mount : Bool

pub record Nfs : Type 0 where
  pub enabled : Bool
  pub local_port : ℤ
  pub squash_to_ssh_user : Bool
  pub mounts : List Mount

pub data AuthType : Type 0 where
  key password : AuthType

pub record Ssh : Type 0 where
  pub user : Text
  pub host : Text
  pub port : ℤ
  pub auth_type : AuthType
  pub ssh_key : Text
  pub compression : Bool

-- `services.ssh` is `forwards` and `autostart`.
pub record Server : Type 0 where
  pub id : Text
  pub name : Text
  pub ssh : Ssh
  pub forwards : List Forward
  pub autostart : Bool
  pub nfs : Nfs

-- `int` of a real drops what stands behind the point.
abbrev whole : ℤ → ℕ → ℤ
whole (pos n) scale = pos (n / 10 ^ scale)
whole (negsuc n) scale = negated (suc n / 10 ^ scale)

-- `int(value)`; none is a TypeError or a ValueError.
unfoldable pub int_of : Json → Option ℤ
int_of (int z) = some z
int_of (bool true) = some (pos 1)
int_of (bool false) = some (pos 0)
int_of (real m scale) = some (whole m scale)
int_of (str s) = parse_int 10 (strip s)
int_of _ = none

abbrev pub in_range_or : ℤ → Option ℤ → ℤ
in_range_or fallback none = fallback
in_range_or fallback (some z) = if between 1 port_max z then z else fallback

unfoldable pub coerce_port : Json → ℤ → ℤ
coerce_port v fallback = in_range_or fallback (int_of v)

-- `value is True`, and `value is not False`
abbrev pub is_true : Json → Bool
is_true (bool b) = b
is_true _ = false

abbrev pub is_not_false : Json → Bool
is_not_false (bool b) = b
is_not_false _ = true

abbrev pub as_fields : Json → Fields
as_fields (obj fs) = fs
as_fields _ = end

abbrev pub loopback_or : Text → Text
loopback_or [] = codes "127.0.0.1"
loopback_or (c ∷ s) = c ∷ s

abbrev pub auth_of : Json → AuthType
auth_of (str s) = if s == codes "password" then password else key
auth_of _ = key

-- `str` of a value that is no text
module _ (text_of : Json → Text) where
  -- `str(value or "")`
  abbrev pub text_or_empty : Json → Text
  text_or_empty (str s) = s
  text_or_empty v = if truthy v then text_of v else []

  abbrev pub stripped : Text → Fields → Text
  stripped k fs = strip (text_or_empty (get_or_null k fs))

  unfoldable pub normalize_forward : Fields → Forward
  normalize_forward row = record {
    local_port = coerce_port (get_or_null (codes "local_port") row) (pos 0);
    remote_host = loopback_or (stripped (codes "remote_host") row);
    remote_port = coerce_port (get_or_null (codes "remote_port") row) (pos 0);
    enabled = is_not_false (get_or_null (codes "enabled") row);
  }

  abbrev pub forward_list : Items → List Forward
  forward_list nil = []
  forward_list (cons (obj row) rows) = normalize_forward row ∷ forward_list rows
  forward_list (cons _ rows) = forward_list rows

  abbrev pub normalize_forwards : Json → List Forward
  normalize_forwards (arr rows) = forward_list rows
  normalize_forwards _ = []

  unfoldable pub normalize_mount_row : Fields → Mount
  normalize_mount_row row = record {
    name = stripped (codes "name") row;
    remote_path = stripped (codes "remote_path") row;
    local_dir = stripped (codes "local_dir") row;
    auto_mount = is_true (get_or_null (codes "auto_mount") row);
  }

  abbrev pub mount_list : Items → List Mount
  mount_list nil = []
  mount_list (cons (obj row) rows) = normalize_mount_row row ∷ mount_list rows
  mount_list (cons _ rows) = mount_list rows

  abbrev pub normalize_mounts : Json → List Mount
  normalize_mounts (arr rows) = mount_list rows
  normalize_mounts _ = []

  unfoldable pub normalize_nfs : Json → Nfs
  normalize_nfs v =
      let nfs = as_fields v in
      record {
        enabled = is_true (get_or_null (codes "enabled") nfs);
        local_port = coerce_port (get_or_null (codes "local_port") nfs) (pos 12049);
        squash_to_ssh_user = is_true (get_or_null (codes "squash_to_ssh_user") nfs);
        mounts = normalize_mounts (get_or_null (codes "mounts") nfs);
      }

  unfoldable pub normalize_ssh : Json → Ssh
  normalize_ssh v =
      let ssh = as_fields v in
      record {
        user = stripped (codes "user") ssh;
        host = stripped (codes "host") ssh;
        port = coerce_port (get_or_null (codes "port") ssh) (pos 22);
        auth_type = auth_of (get_or_null (codes "auth_type") ssh);
        ssh_key = stripped (codes "ssh_key") ssh;
        compression = is_not_false (get_or_null (codes "compression") ssh);
      }

  unfoldable pub normalize_server : Json → Server
  normalize_server v =
      let raw = as_fields v in
      let services = as_fields (get_or_null (codes "services") raw) in
      let ssh_svc = as_fields (get_or_null (codes "ssh") services) in
      record {
        id = text_or_empty (get_or_null (codes "id") raw);
        name = stripped (codes "name") raw;
        ssh = normalize_ssh (get_or_null (codes "ssh") raw);
        forwards = normalize_forwards (get_or_null (codes "forwards") ssh_svc);
        autostart = is_true (get_or_null (codes "autostart") ssh_svc);
        nfs = normalize_nfs (get_or_null (codes "nfs") services);
      }

-- `server_by_id`, and `proxy_server` with its order: the id, then the first server.
unfoldable pub server_by_id : Text → List Server → Option Server
server_by_id sid [] = none
server_by_id sid (s ∷ rest) = if s.id == sid then some s else server_by_id sid rest

abbrev pub first_server : List Server → Option Server
first_server [] = none
first_server (s ∷ _) = some s

unfoldable pub proxy_server : Text → List Server → Option Server
proxy_server [] rows = first_server rows
proxy_server (c ∷ sid) rows = elim (server_by_id (c ∷ sid) rows) [
  | none ↦ first_server rows
  | some s ↦ some s
]
