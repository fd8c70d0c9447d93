-- ===== src/Mpconf/Validate/Ports.antt =====
-- mpconf/validate.py, `port_conflict_errors`: every local port that a save would have listened on.
use magic_ai_router.Prelude.{
  ℕ, suc, ◌≡◌, ◌↔◌, Bool, true, false, ◌||◌, Option, none, some, List, [], ◌∷◌, ◌++◌, Text, codes,
  nat_beq, nat_beq_iff, Key, contains, Dict, lookup, insert, if◌then◌else◌, arith,
}
use magic_ai_router.Json.{ℤ, pos, negsuc, Json, Fields, bool, obj, truthy}
use magic_ai_router.Mpconf.Validate.{
  Label, Owner, top_level, forward_of, nfs_of, Problem, forward_repeated, port_conflict, port_max,
  mp_ports, as_strict_int, get_or_null, between, ssh_svc, nfs_svc, label, items_or_nil,
}

abbrev same_int : ℤ → ℤ → Bool
same_int (pos a) (pos b) = nat_beq a b
same_int (negsuc a) (negsuc b) = nat_beq a b
same_int _ _ = false

pub same_int_iff : (a b : ℤ) → (same_int a b ≡ true) ↔ (a ≡ b)
same_int_iff (pos a) (pos b) = ground (arith, nat_beq_iff a b)
same_int_iff (negsuc a) (negsuc b) = ground (arith, nat_beq_iff a b)
same_int_iff (pos a) (negsuc b) = ground arith
same_int_iff (negsuc a) (pos b) = ground arith

instance abbrev pub int_key : Key ℤ
int_key = record { same_key = same_int; same_key_iff = same_int_iff }

-- The problems that were found, and the listeners with their ports.
abbrev pub Refs : Type 0
Refs = List Problem × List (Owner × ℤ)

abbrev pub merge : Refs → Refs → Refs
merge r s = (r.0 ++ s.0, r.1 ++ s.1)

abbrev pub merge_all : Option Refs → Option Refs → Option Refs
merge_all none s = none
merge_all (some r) none = none
merge_all (some r) (some s) = some (merge r s)

abbrev pub ref_of : Owner → Json → List (Owner × ℤ)
ref_of who v = elim (as_strict_int v) [ none ↦ [] | some p ↦ (who, p) ∷ [] ]

abbrev pub top_refs : Fields → List Text → List (Owner × ℤ)
top_refs mp [] = []
top_refs mp (key ∷ keys) = ref_of (top_level key) (get_or_null key mp) ++ top_refs mp keys

abbrev is_false : Json → Bool
is_false (bool false) = true
is_false _ = false

abbrev is_true : Json → Bool
is_true (bool true) = true
is_true _ = false

-- The local port of a forward, where it is an int and the row is not switched off.
unfoldable pub forward_port_of : Json → Option ℤ
forward_port_of (obj f) =
    if is_false (get_or_null (codes "enabled") f)
    then none
    else as_strict_int (get_or_null (codes "local_port") f)
forward_port_of _ = none

abbrev pub forward_refs : Label → List ℤ → List Json → Refs
forward_refs tname seen [] = ([], [])
forward_refs tname seen (f ∷ fs) =
    let skipped = forward_refs tname seen fs in
    elim (forward_port_of f) [
      | none ↦ skipped
      | some p ↦
          let later = forward_refs tname (p ∷ seen) fs in
          if contains p seen
          then (forward_repeated tname p ∷ skipped.0, skipped.1)
          else (later.0, (forward_of tname, p) ∷ later.1)
    ]

-- The local port of the NFS service, where it is enabled or has mounts.
unfoldable pub nfs_port_of : Fields → Option ℤ
nfs_port_of nfs =
    if is_true (get_or_null (codes "enabled") nfs) || truthy (get_or_null (codes "mounts") nfs)
    then elim (as_strict_int (get_or_null (codes "local_port") nfs)) [
      | none ↦ none
      | some p ↦ if between 1 port_max p then some p else none
    ]
    else none

abbrev pub nfs_refs : Label → Option ℤ → List (Owner × ℤ)
nfs_refs tname none = []
nfs_refs tname (some p) = (nfs_of tname, p) ∷ []

abbrev pub nfs_port_in : Option Fields → Option ℤ
nfs_port_in none = none
nfs_port_in (some nfs) = nfs_port_of nfs

abbrev pub server_refs : ℕ → Json → Option Refs
server_refs i (obj t) =
    let tname = label (get_or_null (codes "name") t) i in
    elim (items_or_nil (get_or_null (codes "forwards") (ssh_svc t))) [
      | none ↦ none
      | some fs ↦
          some (merge (forward_refs tname [] fs) ([], nfs_refs tname (nfs_port_in (nfs_svc t))))
    ]
server_refs i _ = some ([], [])

abbrev pub servers_refs : ℕ → List Json → Option Refs
servers_refs i [] = some ([], [])
servers_refs i (t ∷ ts) = merge_all (server_refs i t) (servers_refs (suc i) ts)

abbrev pub mp_refs : Option Fields → Option Refs
mp_refs none = some ([], [])
mp_refs (some mp) = elim (items_or_nil (get_or_null (codes "servers") mp)) [
  | none ↦ none
  | some ts ↦ merge_all (some ([], top_refs mp mp_ports)) (servers_refs 0 ts)
]

abbrev pub sp_refs : Option Fields → List (Owner × ℤ)
sp_refs none = []
sp_refs (some sp) = ref_of (top_level (codes "listen_port")) (get_or_null (codes "listen_port") sp)

abbrev pub scan : List (Owner × ℤ) → Dict ℤ Owner → List Problem
scan [] seen = []
scan ((who, p) ∷ refs) seen = elim (lookup p seen) [
  | some first ↦ port_conflict first who p ∷ scan refs seen
  | none ↦ scan refs (insert p who seen)
]

unfoldable pub port_conflict_errors : Option Fields → Option Fields → Option (List Problem)
port_conflict_errors mp sp = elim (merge_all (mp_refs mp) (some ([], sp_refs sp))) [
  | none ↦ none
  | some r ↦ some (r.0 ++ scan r.1 [])
]
