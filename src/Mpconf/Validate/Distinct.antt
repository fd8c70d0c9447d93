-- ===== src/Mpconf/Validate/Distinct.antt =====
-- mpconf/validate.py, `port_conflict_errors`: the ports that a configuration listens on, described
-- without the scan, and what an empty report says of them.
use magic_ai_router.Prelude.{
  ℕ, suc, ◌≡◌, refl, ap, inl, inr, false, Option, none, some, List, [], ◌∷◌, ◌++◌, codes, ◌==◌,
  contains, Dict, lookup, insert, lookup-insert, All, Option-cases, Bool-cases, arith,
}
use magic_ai_router.Json.{ℤ, Json, Fields, obj}
use magic_ai_router.Mpconf.Validate.{
  Label, Owner, Problem, mp_ports, get_or_null, ssh_svc, nfs_svc, label, items_or_nil,
}
use magic_ai_router.Mpconf.Validate.Ports.{
  int_key, Refs, merge, merge_all, top_refs, forward_port_of, forward_refs, nfs_refs, nfs_port_in,
  server_refs, servers_refs, mp_refs, sp_refs, scan, port_conflict_errors,
}

abbrev pub ports : List (Owner × ℤ) → List ℤ
ports [] = []
ports ((who, p) ∷ refs) = p ∷ ports refs

abbrev pub used : List Json → List ℤ
used [] = []
used (f ∷ fs) = let rest = used fs in elim (forward_port_of f) [ none ↦ rest | some p ↦ p ∷ rest ]

abbrev pub listed : Option ℤ → List ℤ
listed none = []
listed (some p) = p ∷ []

abbrev pub both : Option (List ℤ) → Option (List ℤ) → Option (List ℤ)
both none q = none
both (some a) none = none
both (some a) (some b) = some (a ++ b)

abbrev pub server_ports : Json → Option (List ℤ)
server_ports (obj t) = elim (items_or_nil (get_or_null (codes "forwards") (ssh_svc t))) [
  | none ↦ none
  | some fs ↦ some (used fs ++ listed (nfs_port_in (nfs_svc t)))
]
server_ports _ = some []

abbrev pub servers_ports : List Json → Option (List ℤ)
servers_ports [] = some []
servers_ports (t ∷ ts) = both (server_ports t) (servers_ports ts)

abbrev pub mp_local_ports : Option Fields → Option (List ℤ)
mp_local_ports none = some []
mp_local_ports (some mp) = elim (items_or_nil (get_or_null (codes "servers") mp)) [
  | none ↦ none
  | some ts ↦ both (some (ports (top_refs mp mp_ports))) (servers_ports ts)
]

abbrev pub local_ports : Option Fields → Option Fields → Option (List ℤ)
local_ports mp sp = both (mp_local_ports mp) (some (ports (sp_refs sp)))

abbrev pub Distinct : List ℤ → Type 0
Distinct [] = Unit
Distinct (p ∷ ps) = All (λ q. (p == q) ≡ false) ps × Distinct ps

pub ports-append : (a b : List (Owner × ℤ)) → ports (a ++ b) ≡ ports a ++ ports b
ports-append [] b = refl
ports-append ((who, p) ∷ a) b = ap (λ s. p ∷ s) (ports-append a b)

append_nil : (a b : List Problem) → a ++ b ≡ [] → (a ≡ []) × (b ≡ [])
append_nil [] b h = (refl, h)
append_nil (x ∷ a) b h = cc

forward_refs-used :
    (tname : Label) (seen : List ℤ) (fs : List Json)
    → (forward_refs tname seen fs).0 ≡ []
    → ports (forward_refs tname seen fs).1 ≡ used fs
forward_refs-used tname seen [] = λ h. refl
forward_refs-used tname seen (f ∷ fs) = elim (Option-cases (forward_port_of f)) [
  | inl e ↦ rw (e, forward_refs, used) (forward_refs-used tname seen fs)
  | inr (p, e) ↦
      rw (e, forward_refs, used)
        (elim (Bool-cases (contains p seen)) [
          | inl c ↦ rw c (λ h. cc)
          | inr c ↦ rw c (λ h. ap (λ s. p ∷ s) (forward_refs-used tname (p ∷ seen) fs h))
        ])
]

abbrev Agrees : Option Refs → Option (List ℤ) → Type 0
Agrees none q = Unit
Agrees (some r) q = r.0 ≡ [] → q ≡ some (ports r.1)

Agrees-merge_all :
    (o s : Option Refs) (p q : Option (List ℤ))
    → Agrees o p
    → Agrees s q
    → Agrees (merge_all o s) (both p q)
Agrees-merge_all none s p q ho hs = tt
Agrees-merge_all (some a) none p q ho hs = tt
Agrees-merge_all (some a) (some b) p q ho hs = λ z.
    let parts = append_nil a.0 b.0 z in
    rw (ho parts.0) (rw (hs parts.1) (rw (ports-append a.1 b.1) refl))

ports-nfs_refs : (tname : Label) (p : Option ℤ) → ports (nfs_refs tname p) ≡ listed p
ports-nfs_refs tname none = refl
ports-nfs_refs tname (some p) = refl

forward_refs-Agrees :
    (tname : Label) (fs : List Json) (p : Option ℤ)
    → Agrees
        (some (merge (forward_refs tname [] fs) ([], nfs_refs tname p)))
        (some (used fs ++ listed p))
forward_refs-Agrees tname fs p z =
    let found = forward_refs tname [] fs in
    rw (ports-append found.1 (nfs_refs tname p)) (
      rw (ports-nfs_refs tname p)
        (rw (forward_refs-used tname [] fs (append_nil found.0 [] z).0) refl))

server_refs-Agrees : (i : ℕ) (t : Json) → Agrees (server_refs i t) (server_ports t)
server_refs-Agrees i (obj t) =
    elim (Option-cases (items_or_nil (get_or_null (codes "forwards") (ssh_svc t)))) [
      | inl e ↦ rw (e, Agrees, server_refs) tt
      | inr (fs, e) ↦
          rw (e, Agrees, server_refs, server_ports)
            (forward_refs-Agrees (label (get_or_null (codes "name") t) i) fs
              (nfs_port_in (nfs_svc t)))
    ]
server_refs-Agrees i _ = λ h. refl

servers_refs-Agrees : (i : ℕ) (ts : List Json) → Agrees (servers_refs i ts) (servers_ports ts)
servers_refs-Agrees i [] = λ h. refl
servers_refs-Agrees i (t ∷ ts) =
    Agrees-merge_all (server_refs i t) (servers_refs (suc i) ts) (server_ports t) (servers_ports ts)
      (server_refs-Agrees i t) (servers_refs-Agrees (suc i) ts)

mp_refs-Agrees : (mp : Option Fields) → Agrees (mp_refs mp) (mp_local_ports mp)
mp_refs-Agrees none = λ h. refl
mp_refs-Agrees (some mp) = elim (Option-cases (items_or_nil (get_or_null (codes "servers") mp))) [
  | inl e ↦ rw (e, Agrees, mp_refs) tt
  | inr (ts, e) ↦
      rw (e, Agrees, mp_refs, mp_local_ports)
        (Agrees-merge_all (some ([], top_refs mp mp_ports)) (servers_refs 0 ts)
          (some (ports (top_refs mp mp_ports))) (servers_ports ts) (λ h. refl)
          (servers_refs-Agrees 0 ts))
]

-- What is fresh behind an insertion was so before, and is another port.
insert-fresh :
    (p : ℤ) (who : Owner) (seen : Dict ℤ Owner) (ps : List ℤ)
    → All (λ q. lookup q (insert p who seen) ≡ none) ps
    → All (λ q. lookup q seen ≡ none) ps × All (λ q. (p == q) ≡ false) ps
insert-fresh p who seen [] h = (tt, tt)
insert-fresh p who seen (q ∷ ps) h =
    let rest = insert-fresh p who seen ps h.1 in
    let both_fresh : (lookup q seen ≡ none) × ((p == q) ≡ false) =
      ground (arith, h.0, lookup-insert p q who seen) in
    ((both_fresh.0, rest.0), (both_fresh.1, rest.1))

scan-fresh :
    (refs : List (Owner × ℤ)) (seen : Dict ℤ Owner)
    → scan refs seen ≡ []
    → All (λ q. lookup q seen ≡ none) (ports refs) × Distinct (ports refs)
scan-fresh [] seen = λ h. (tt, tt)
scan-fresh ((who, p) ∷ refs) seen = elim (Option-cases (lookup p seen)) [
  | inr (first, e) ↦ rw (e, scan) (λ h. cc)
  | inl e ↦
      rw (e, scan)
        (λ h.
          let later = scan-fresh refs (insert p who seen) h in
          let fresh = insert-fresh p who seen (ports refs) later.0 in
          ((refl, fresh.0), (fresh.1, later.1)))
]

scan_clean :
    (o : Option Refs) (q : Option (List ℤ))
    → Agrees o q
    → (elim o [ none ↦ none | some r ↦ some (r.0 ++ scan r.1 []) ]) ≡ some []
    → (ps : List ℤ) × (q ≡ some ps) × Distinct ps
scan_clean none q a h = cc
scan_clean (some r) q a h =
    let parts = append_nil r.0 (scan r.1 []) (grind arith) in
    (ports r.1, a parts.0, (scan-fresh r.1 [] parts.1).1)

-- The ports that the scan goes through, pairwise different.
abbrev pub AreDistinct : Option Fields → Option Fields → Type 0
AreDistinct mp sp = (ps : List ℤ) × (local_ports mp sp ≡ some ps) × Distinct ps

pub scanned-Distinct :
    (mp sp : Option Fields) → port_conflict_errors mp sp ≡ some [] → AreDistinct mp sp
unfolding port_conflict_errors
scanned-Distinct mp sp h =
    scan_clean (merge_all (mp_refs mp) (some ([], sp_refs sp))) (local_ports mp sp)
      (Agrees-merge_all (mp_refs mp) (some ([], sp_refs sp)) (mp_local_ports mp)
        (some (ports (sp_refs sp))) (mp_refs-Agrees mp) (λ z. refl))
      h
