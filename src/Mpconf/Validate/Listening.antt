-- ===== src/Mpconf/Validate/Listening.antt =====
-- mpconf/validate.py, `port_conflict_errors`: the local ports of a candidate, read off its JSON
-- (Listeners), are those that the scan goes through.
use magic_ai_router.Prelude.{
  ◌≡◌, refl, sym, ap, subst, ◌∙◌, inl, inr, Bool, true, false, Option, none, some, List, [], ◌∷◌,
  ◌++◌, Text, codes, map, text_key, Option-cases, arith, if◌then◌else◌,
}
use magic_ai_router.Mpconf.Validate.Listeners.{
  at, number, rows, forward_ports, nfs_ports, gather, server_listens, numbers, listens, as_json,
}
use magic_ai_router.Json.{
  ℤ, Json, null, bool, int, real, str, arr, obj, nil, cons, Fields, end, field, get, items, truthy,
}
use magic_ai_router.Mpconf.Validate.{
  get_or_null, ssh_svc, nfs_svc, items_or_nil, Owner, top_level, keys, mp_ports,
}
use magic_ai_router.Mpconf.Validate.Ports.{
  forward_port_of, nfs_port_of, nfs_port_in, port_conflict_errors, top_refs, sp_refs, ref_of,
}
use magic_ai_router.Mpconf.Validate.Distinct.{
  ports, used, listed, both, ports-append, server_ports, servers_ports, mp_local_ports, local_ports,
  Distinct, scanned-Distinct,
}

forward-same : (f : Json) → listed (forward_port_of f) ≡ forward_ports f
unfolding forward_port_of
forward-same (obj f) = ground arith
forward-same null = refl
forward-same (bool b) = refl
forward-same (int z) = refl
forward-same (real m e) = refl
forward-same (str s) = refl
forward-same (arr xs) = refl

nfs-same : (nfs : Fields) → listed (nfs_port_of nfs) ≡ nfs_ports (some (obj nfs))
unfolding nfs_port_of
nfs-same nfs = ground arith

used-same : (fs : List Json) → used fs ≡ gather forward_ports fs
used-same [] = refl
used-same (f ∷ fs) = elim (Option-cases (forward_port_of f)) [
  | inl e ↦
      rw (e, used)
        (used-same fs ∙ ap (λ s. s ++ gather forward_ports fs) (sym (ap listed e) ∙ forward-same f))
  | inr (p, e) ↦
      rw (e, used)
        (ap (λ s. p ∷ s) (used-same fs)
          ∙ ap (λ s. s ++ gather forward_ports fs) (sym (ap listed e) ∙ forward-same f))
]

abbrev or_null : Option Json → Json
or_null none = null
or_null (some v) = v

port_inj : (a b : List ℤ) → some a ≡ some b → a ≡ b
port_inj a b h = cc

list_inj : (a b : List Json) → some a ≡ some b → a ≡ b
list_inj a b h = cc

falsy_rows : (b : Bool) (fs : List Json) → (if b then none else some []) ≡ some fs → [] ≡ fs
falsy_rows true fs h = cc
falsy_rows false fs h = list_inj [] fs h

-- Only the items of a list can be dictionaries.
module _ (f : Json → List ℤ) (plain : (s : Text) → f (str s) ≡ []) where
  gather-texts : (s : Text) → gather f (map (λ c. str (c ∷ [])) s) ≡ []
  gather-texts [] = refl
  gather-texts (c ∷ s) = rw (plain (c ∷ [])) (gather-texts s)

  gather-keys : (fs : Fields) → gather f (keys fs) ≡ []
  gather-keys end = refl
  gather-keys (field k v fs) = rw (plain k) (gather-keys fs)

  rows-same :
      (v : Option Json) (fs : List Json)
      → items_or_nil (or_null v) ≡ some fs
      → gather f fs ≡ gather f (rows v)
  unfolding items_or_nil
  rows-same none fs h = sym (ap (gather f) (list_inj [] fs h))
  rows-same (some null) fs h = sym (ap (gather f) (list_inj [] fs h))
  rows-same (some (arr nil)) fs h = sym (ap (gather f) (list_inj [] fs h))
  rows-same (some (arr (cons x xs))) fs h = sym (ap (gather f) (list_inj (items (cons x xs)) fs h))
  rows-same (some (obj end)) fs h = sym (ap (gather f) (list_inj [] fs h))
  rows-same (some (obj (field k v gs))) fs h =
      sym (ap (gather f) (list_inj (keys (field k v gs)) fs h)) ∙ gather-keys (field k v gs)
  rows-same (some (str [])) fs h = sym (ap (gather f) (list_inj [] fs h))
  rows-same (some (str (c ∷ s))) fs h =
      sym (ap (gather f) (list_inj (map (λ c. str (c ∷ [])) (c ∷ s)) fs h)) ∙ gather-texts (c ∷ s)
  rows-same (some (bool b)) fs h = sym (ap (gather f) (falsy_rows (truthy (bool b)) fs h))
  rows-same (some (int z)) fs h = sym (ap (gather f) (falsy_rows (truthy (int z)) fs h))
  rows-same (some (real m e)) fs h = sym (ap (gather f) (falsy_rows (truthy (real m e)) fs h))

forwards-at :
    (t : Fields)
    → get_or_null (codes "forwards") (ssh_svc t)
      ≡ or_null (at (codes "services" ∷ codes "ssh" ∷ codes "forwards" ∷ []) (some (obj t)))
forwards-at t = ground arith

nfs-at :
    (t : Fields)
    → listed (nfs_port_in (nfs_svc t))
      ≡ nfs_ports (at (codes "services" ∷ codes "nfs" ∷ []) (some (obj t)))
nfs-at t = in_services (get (codes "services") t)
  where
    of_value :
        (o : Option Json)
        → listed (nfs_port_in (elim o [ some (obj fs) ↦ some fs | _ ↦ none ])) ≡ nfs_ports o
    of_value none = refl
    of_value (some (obj nfs)) = nfs-same nfs
    of_value (some null) = refl
    of_value (some _) = refl

    in_services :
        (o : Option Json)
        → listed (
            nfs_port_in (elim (get (codes "nfs") (elim o [ some (obj fs) ↦ fs | _ ↦ end ])) [
              | some (obj fs) ↦ some fs
              | _ ↦ none
            ]))
          ≡ nfs_ports (at (codes "nfs" ∷ []) o)
    in_services none = refl
    in_services (some (obj fs)) = of_value (get (codes "nfs") fs)
    in_services (some null) = refl
    in_services (some _) = refl

servers-at :
    (mp : Fields)
    → get_or_null (codes "servers") mp ≡ or_null (at (codes "servers" ∷ []) (some (obj mp)))
servers-at mp = ground arith

server-same : (t : Json) (ps : List ℤ) → server_ports t ≡ some ps → ps ≡ server_listens t
server-same (obj t) ps h =
    let forwards = at (codes "services" ∷ codes "ssh" ∷ codes "forwards" ∷ []) (some (obj t)) in
    elim (Option-cases (items_or_nil (get_or_null (codes "forwards") (ssh_svc t)))) [
      | inl e ↦ let h2 = rw (e, server_ports) at h in cc
      | inr (fs, e) ↦
          let h2 = rw (e, server_ports) at h in
          sym (port_inj (used fs ++ listed (nfs_port_in (nfs_svc t))) ps h2)
          ∙ ap (λ s. s ++ listed (nfs_port_in (nfs_svc t)))
              (used-same fs
                ∙ rows-same forward_ports (λ s. refl) forwards fs
                    (ap items_or_nil (sym (forwards-at t)) ∙ e))
          ∙ ap (λ s. gather forward_ports (rows forwards) ++ s) (nfs-at t)
    ]
server-same null ps h = sym (port_inj [] ps h)
server-same _ ps h = sym (port_inj [] ps h)

both-some :
    (p q : Option (List ℤ)) (ps : List ℤ)
    → both p q ≡ some ps
    → (a : List ℤ) × (b : List ℤ) × (p ≡ some a) × (q ≡ some b) × (ps ≡ a ++ b)
both-some none q ps h = cc
both-some (some a) none ps h = cc
both-some (some a) (some b) ps h = (a, b, refl, refl, sym (port_inj (a ++ b) ps h))

servers-same :
    (ts : List Json) (ps : List ℤ) → servers_ports ts ≡ some ps → ps ≡ gather server_listens ts
servers-same [] ps h = sym (port_inj [] ps h)
servers-same (t ∷ ts) ps h =
    let (a, b, ha, hb, same) = both-some (server_ports t) (servers_ports ts) ps h in
    same
    ∙ ap (λ s. s ++ b) (server-same t a ha)
    ∙ ap (λ s. server_listens t ++ s) (servers-same ts b hb)

number-same :
    (who : Owner) (key : Text) (fs : Fields)
    → ports (ref_of who (get_or_null key fs)) ≡ number (at (key ∷ []) (some (obj fs)))
number-same who key fs = go (get key fs)
  where
    go :
        (o : Option Json)
        → ports (ref_of who (elim o [ none ↦ null | some v ↦ v ])) ≡ number (at [] o)
    go none = refl
    go (some (int p)) = refl
    go (some null) = refl
    go (some _) = refl

top-same : (mp : Fields) (ks : List Text) → ports (top_refs mp ks) ≡ numbers (some (obj mp)) ks
top-same mp [] = refl
top-same mp (key ∷ ks) =
    ports-append (ref_of (top_level key) (get_or_null key mp)) (top_refs mp ks)
    ∙ ap (λ s. s ++ ports (top_refs mp ks)) (number-same (top_level key) key mp)
    ∙ ap (λ s. number (at (key ∷ []) (some (obj mp))) ++ s) (top-same mp ks)

sp-same :
    (sp : Option Fields) → ports (sp_refs sp) ≡ number (at (codes "listen_port" ∷ []) (as_json sp))
sp-same none = refl
sp-same (some sp) = number-same (top_level (codes "listen_port")) (codes "listen_port") sp

mp-same :
    (mp : Option Fields) (ps : List ℤ)
    → mp_local_ports mp ≡ some ps
    → ps
      ≡ numbers (as_json mp) mp_ports
        ++ gather server_listens (rows (at (codes "servers" ∷ []) (as_json mp)))
mp-same none ps h = sym (port_inj [] ps h)
mp-same (some mp) ps h =
    let own = numbers (some (obj mp)) mp_ports in
    elim (Option-cases (items_or_nil (get_or_null (codes "servers") mp))) [
      | inl e ↦ let h2 = rw (e, mp_local_ports) at h in cc
      | inr (ts, e) ↦
          let h2 = rw (e, mp_local_ports) at h in
          let (a, b, ha, hb, same) =
            both-some (some (ports (top_refs mp mp_ports))) (servers_ports ts) ps h2 in
          same
          ∙ ap (λ s. s ++ b)
              (sym (port_inj (ports (top_refs mp mp_ports)) a ha) ∙ top-same mp mp_ports)
          ∙ ap (λ s. own ++ s)
              (servers-same ts b hb
                ∙ rows-same server_listens (λ s. refl) (at (codes "servers" ∷ []) (some (obj mp)))
                    ts (ap items_or_nil (sym (servers-at mp)) ∙ e))
    ]

local-same :
    (mp sp : Option Fields) (ps : List ℤ)
    → local_ports mp sp ≡ some ps
    → ps ≡ listens (as_json mp) (as_json sp)
local-same mp sp ps h =
    let (a, b, ha, hb, same) = both-some (mp_local_ports mp) (some (ports (sp_refs sp))) ps h in
    same
    ∙ ap (λ s. s ++ b) (mp-same mp a ha)
    ∙ ap
        (λ s.
          (numbers (as_json mp) mp_ports
            ++ gather server_listens (rows (at (codes "servers" ∷ []) (as_json mp))))
          ++ s)
        (sym (port_inj (ports (sp_refs sp)) b hb) ∙ sp-same sp)

-- Where the report of port_conflict_errors on a candidate is empty, no two of the local ports that
-- its JSON names are the same: those of its four listeners, of every forward that is not switched
-- off, of every NFS service that is enabled or has mounts, if it is from 1 to 65535, and of the
-- gateway.
pub port_conflict_errors-Distinct :
    (mp sp : Option Fields)
    → port_conflict_errors mp sp ≡ some []
    → Distinct (listens (as_json mp) (as_json sp))
port_conflict_errors-Distinct mp sp h =
    let (ps, found, apart) = scanned-Distinct mp sp h in
    subst Distinct (local-same mp sp ps found) apart
