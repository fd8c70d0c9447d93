-- ===== src/Tunnel/Coordinator/Converged.antt =====
-- What the tick and the automatic start of tunnel/connection_coordinator.py make of the registry.
use magic_ai_router.Prelude.{
  ◌≡◌, refl, sym, ap, subst, ◌∙◌, inl, inr, Bool, true, false, ◌&&◌, ◌||◌, Option, some, List, [],
  ◌∷◌, ◌++◌, Text, Dict, lookup, insert, lookup-insert, lookup-remove, is_some, text_key, ◌==◌,
  Bool-cases, Option-cases, arith, if◌then◌else◌,
}
use magic_ai_router.Json.{ℤ}
use magic_ai_router.Mpconf.Servers.{Server, server_by_id, proxy_server}
use magic_ai_router.Tunnel.Session.{Session, connect_session, tick}
use magic_ai_router.Tunnel.Coordinator.{
  Config, Coordinator, World, has_enabled_forwards, can_forward, current_server, server_of,
  is_server, env_at, start_known, start_forward, wants_start, start_all, apply_autostarts,
  check_one, check_each, check_forwards, connect_if_down, new_session,
}

abbrev has_key : Text → Dict Text Session → Bool
has_key tid [] = false
has_key tid ((j, s) ∷ m) = j == tid || has_key tid m

has_key-lookup : (tid : Text) (m : Dict Text Session) → has_key tid m ≡ is_some (lookup tid m)
has_key-lookup tid [] = refl
has_key-lookup tid ((j, s) ∷ m) = ground (arith, has_key-lookup tid m)

can_forward-same :
    (j tid : Text) (c : Coordinator)
    → (j == tid) ≡ true
    → can_forward (server_of c tid) ≡ can_forward (server_of c j)
can_forward-same j tid c same =
    sym (ap (λ x. can_forward (server_of c x)) ((text_key.same_key_iff j tid).0 same))

combine :
    (o found : Option Server) (l there a b : Bool)
    → o ≡ found
    → l ≡ (if a then can_forward found else there)
    → (if b then can_forward o else l) ≡ (if a || b then can_forward found else there)
combine o found l there a true e k = ground (arith, ap can_forward e)
combine o found l there true false e k = k
combine o found l there false false e k = k

settle : (a there ok : Bool) → a ≡ there → (if a then ok else there) ≡ (there && ok)
settle a there ok e = ground arith

if-not : (b : Bool) (c d : Coordinator) → b ≡ false → (if b then c else d) ≡ d
if-not true c d e = cc
if-not false c d e = refl

module _ (text_of : ℤ → Text) (w : World) (tid : Text) where
  check_one-config :
      (j : Text) (s : Session) (c : Coordinator) → (check_one text_of w j s c).config ≡ c.config
  check_one-config j s c = ground arith

  check_one-lookup :
      (j : Text) (s : Session) (c : Coordinator)
      → is_some (lookup tid (check_one text_of w j s c).forwards)
        ≡ (if j == tid then can_forward (server_of c tid) else is_some (lookup tid c.forwards))
  check_one-lookup j s c = elim (Bool-cases (can_forward (server_of c j))) [
    | inl kept ↦ rw kept (
        rw (lookup-insert j tid (tick text_of (env_at w c j) s) c.forwards)
          (elim (Bool-cases (j == tid)) [
            | inl same ↦ rw same (sym (can_forward-same j tid c same ∙ kept))
            | inr other ↦ rw other refl
          ]))
    | inr gone ↦ rw gone (
        rw (lookup-remove j tid c.forwards) (elim (Bool-cases (j == tid)) [
          | inl same ↦ rw same (sym (can_forward-same j tid c same ∙ gone))
          | inr other ↦ rw other refl
        ]))
  ]

  check_each-lookup :
      (m : Dict Text Session) (c : Coordinator)
      → is_some (lookup tid (check_each text_of w m c).forwards)
        ≡ (if has_key tid m then can_forward (server_of c tid) else is_some (lookup tid c.forwards))
  unfolding check_each
  check_each-lookup [] c = refl
  check_each-lookup ((j, s) ∷ m) c =
      let d = check_one text_of w j s c in
      check_each-lookup m d
      ∙ combine (server_of d tid) (server_of c tid) (is_some (lookup tid d.forwards))
          (is_some (lookup tid c.forwards)) (j == tid) (has_key tid m)
          (ap (λ (k : Config). server_by_id tid k.servers) (check_one-config j s c))
          (check_one-lookup j s c)

  pub check_forwards_lem :
      (c : Coordinator)
      → w.lock_taken ≡ false
      → is_some (lookup tid (check_forwards text_of w c).forwards)
        ≡ (is_some (lookup tid c.forwards) && can_forward (server_of c tid))
  unfolding check_forwards
  check_forwards_lem c free =
      ap (λ (d : Coordinator). is_some (lookup tid d.forwards))
        (if-not w.lock_taken c (check_each text_of w c.forwards c) free)
      ∙ check_each-lookup c.forwards c
      ∙ settle (has_key tid c.forwards) (is_some (lookup tid c.forwards))
          (can_forward (server_of c tid)) (has_key-lookup tid c.forwards)

is_some-insert :
    (j tid : Text) (s : Session) (m : Dict Text Session)
    → is_some (lookup tid (insert j s m)) ≡ (j == tid || is_some (lookup tid m))
is_some-insert j tid s m = rw (lookup-insert j tid s m) (go (j == tid))
  where
    go : (b : Bool) → is_some (if b then some s else lookup tid m) ≡ (b || is_some (lookup tid m))
    go true = refl
    go false = refl

start_known-there :
    (w : World) (j tid : Text) (c : Coordinator)
    → is_some (lookup tid (start_known w j c).forwards)
      ≡ (j == tid || is_some (lookup tid c.forwards))
start_known-there w j tid c = elim (Option-cases (lookup j c.forwards)) [
  | inl e ↦
      rw (e, start_known)
        (is_some-insert j tid (connect_session (env_at w c j) new_session) c.forwards)
  | inr (s, e) ↦
      rw (e, start_known) (is_some-insert j tid (connect_if_down (env_at w c j) s) c.forwards)
]

-- What is in the registry stays there when a session is started.
start_forward-keeps :
    (w : World) (j tid : Text) (c : Coordinator)
    → is_some (lookup tid c.forwards) ≡ true
    → is_some (lookup tid (start_forward w j c).0.forwards) ≡ true
unfolding start_forward
start_forward-keeps w j tid c there = ground (arith, start_known-there w j tid c)

start_forward-config :
    (w : World) (j : Text) (c : Coordinator) → (start_forward w j c).0.config ≡ c.config
unfolding start_forward
start_forward-config w j c = ground arith

-- A server that may be started is in the registry afterwards.
start_forward-adds :
    (w : World) (t : Server) (c : Coordinator)
    → server_of c t.id ≡ some t
    → is_server t.id (current_server c) ≡ false
    → has_enabled_forwards t.forwards ≡ true
    → is_some (lookup t.id (start_forward w t.id c).0.forwards) ≡ true
unfolding start_forward
start_forward-adds w t c found other enabled =
    ground (arith, start_known-there w t.id t.id c, (text_key.same_key_iff t.id t.id).1 refl)

if-keeps :
    (tid : Text) (b : Bool) (d e : Coordinator)
    → is_some (lookup tid d.forwards) ≡ true
    → is_some (lookup tid e.forwards) ≡ true
    → is_some (lookup tid (if b then d else e).forwards) ≡ true
if-keeps tid true d e h k = h
if-keeps tid false d e h k = k

start_all-keeps :
    (w : World) (tid : Text) (ts : List Server) (c : Coordinator)
    → is_some (lookup tid c.forwards) ≡ true
    → is_some (lookup tid (start_all w ts c).forwards) ≡ true
unfolding start_all
start_all-keeps w tid [] c there = there
start_all-keeps w tid (t ∷ ts) c there =
    start_all-keeps w tid ts (if wants_start c t then (start_forward w t.id c).0 else c) (
      if-keeps tid (wants_start c t) (start_forward w t.id c).0 c
        (start_forward-keeps w t.id tid c there) there)

start_one-config :
    (w : World) (u : Server) (c : Coordinator)
    → (if wants_start c u then (start_forward w u.id c).0 else c).config ≡ c.config
start_one-config w u c = elim (Bool-cases (wants_start c u)) [
  | inl wanted ↦ rw wanted (start_forward-config w u.id c)
  | inr passed ↦ rw passed refl
]

start_one-adds :
    (w : World) (t : Server) (c : Coordinator)
    → server_of c t.id ≡ some t
    → is_server t.id (current_server c) ≡ false
    → has_enabled_forwards t.forwards ≡ true
    → t.autostart ≡ true
    → (t.id == []) ≡ false
    → is_some (lookup t.id (if wants_start c t then (start_forward w t.id c).0 else c).forwards)
      ≡ true
start_one-adds w t c found other enabled auto named = elim (Bool-cases (wants_start c t)) [
  | inl wanted ↦ rw wanted (start_forward-adds w t c found other enabled)
  | inr passed ↦ rw passed (ground arith)
]

-- The server `t` stands among those that the automatic start goes through.
start_all-adds :
    (w : World) (t : Server) (before after : List Server) (c : Coordinator)
    → server_of c t.id ≡ some t
    → is_server t.id (current_server c) ≡ false
    → has_enabled_forwards t.forwards ≡ true
    → t.autostart ≡ true
    → (t.id == []) ≡ false
    → is_some (lookup t.id (start_all w (before ++ t ∷ after) c).forwards) ≡ true
unfolding start_all
start_all-adds w t [] after c found other enabled auto named =
    start_all-keeps w t.id after (if wants_start c t then (start_forward w t.id c).0 else c)
      (start_one-adds w t c found other enabled auto named)
start_all-adds w t (u ∷ before) after c found other enabled auto named =
    let d = if wants_start c u then (start_forward w u.id c).0 else c in
    let same : d.config ≡ c.config = start_one-config w u c in
    start_all-adds w t before after d
      (ap (λ (k : Config). server_by_id t.id k.servers) same ∙ found)
      (ap (λ (k : Config). is_server t.id (proxy_server k.proxy_server_id k.servers)) same ∙ other)
      enabled auto named

pub apply_autostarts-adds :
    (w : World) (t : Server) (before after : List Server) (c : Coordinator)
    → c.config.servers ≡ before ++ t ∷ after
    → server_of c t.id ≡ some t
    → is_server t.id (current_server c) ≡ false
    → has_enabled_forwards t.forwards ≡ true
    → t.autostart ≡ true
    → (t.id == []) ≡ false
    → is_some (lookup t.id (apply_autostarts w c).forwards) ≡ true
unfolding apply_autostarts
apply_autostarts-adds w t before after c listed found other enabled auto named =
    subst (λ (ts : List Server). is_some (lookup t.id (start_all w ts c).forwards) ≡ true)
      (sym listed) (start_all-adds w t before after c found other enabled auto named)
