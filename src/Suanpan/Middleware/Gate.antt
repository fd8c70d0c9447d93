-- ===== src/Suanpan/Middleware/Gate.antt =====
-- Who passes the gate of suanpan/middleware.py.
use magic_ai_router.Prelude.{
  ◌≡◌, ◌≢◌, ◌↔◌, ◌⊎◌, refl, sym, ap, subst, ◌∙◌, true, false, Option, none, some, [], ◌∷◌, ◌++◌,
  Text, codes, length, drop, starts_with, text_beq_iff, text_key, arith, inl, inr, Bool-cases,
  if◌then◌else◌,
}
use magic_ai_router.Suanpan.Middleware.{
  call_next, is_public, encoded, bearer, provided, check_key, dispatch_key,
}

starts_with-split : (p s : Text) → starts_with s p ≡ true → s ≡ p ++ drop (length p) s
unfolding starts_with
starts_with-split [] s h = refl
starts_with-split (c ∷ p) [] h = cc
starts_with-split (c ∷ p) (d ∷ s) h =
    let rest = starts_with-split p s (ground arith) in
    let same : d ≡ c = ground arith in ap (λ x. x ∷ s) same ∙ ap (λ x. c ∷ x) rest

starts_with-append : (p s : Text) → starts_with (p ++ s) p ≡ true
unfolding starts_with
starts_with-append [] s = refl
starts_with-append (c ∷ p) s = ground (arith, starts_with-append p s)

drop-append : (p s : Text) → drop (length p) (p ++ s) ≡ s
drop-append [] s = refl
drop-append (c ∷ p) s = drop-append p s

abbrev pub scheme : Text
scheme = codes "Bearer "

-- The request brings this credential: a key in `x-api-key` that is not empty; or, where that header
-- is missing or empty, the token behind the scheme in `authorization`; or the empty key of the
-- header, where there is no token either.
abbrev pub Brings : Option Text → Option Text → Text → Type 0
Brings x_api_key auth key =
    ((key ≢ []) × (x_api_key ≡ some key))
    ⊎ (((x_api_key ≡ none) ⊎ (x_api_key ≡ some [])) × (auth ≡ some (scheme ++ key)))
    ⊎ ((x_api_key ≡ some []) × (key ≡ []) × ((token : Text) → auth ≢ some (scheme ++ token)))

token_of-append :
    (p key : Text) (other : Option Text)
    → (if starts_with (p ++ key) p then some (drop (length p) (p ++ key)) else other) ≡ some key
token_of-append p key other = rw (starts_with-append p key) (ap some (drop-append p key))

some_inj : (a b : Text) → some a ≡ some b → a ≡ b
some_inj a b h = cc

bearer-token :
    (auth other : Option Text) (key : Text)
    → auth ≡ some (scheme ++ key)
    → bearer auth other ≡ some key
unfolding bearer
bearer-token auth other key h =
    subst (λ a. bearer a other ≡ some key) (sym h) (token_of-append scheme key other)

none_token : (p a token : Text) → starts_with a p ≡ false → a ≢ p ++ token
none_token p a token h e = absurd (ground (arith, starts_with-append p token))

-- What `bearer` answers: a token, or what was there where there is none.
bearer-cases :
    (auth other : Option Text) (key : Text)
    → bearer auth other ≡ some key
    → (auth ≡ some (scheme ++ key))
      ⊎ ((other ≡ some key) × ((token : Text) → auth ≢ some (scheme ++ token)))
unfolding bearer
bearer-cases none other key h = inr (h, (λ token e. cc))
bearer-cases (some a) other key h = elim (Bool-cases (starts_with a scheme)) [
  | inl token ↦
      let h2 = rw token at h in
      let same = some_inj (drop (length scheme) a) key h2 in
      inl (ap some (starts_with-split scheme a token ∙ ap (λ x. scheme ++ x) same))
  | inr missing ↦
      let h2 = rw missing at h in
      inr (h2, (λ token e. none_token scheme a token missing (some_inj a (scheme ++ token) e)))
]

provided-Brings :
    (x auth : Option Text) (key : Text) → provided x auth ≡ some key → Brings x auth key
unfolding provided
provided-Brings (some (c ∷ k)) auth key h =
    let same = some_inj (c ∷ k) key h in inl ((λ e. cc), ap some same)
provided-Brings (some []) auth key h = elim (bearer-cases auth (some []) key h) [
  | inl token ↦ inr (inl (inr refl, token))
  | inr (empty, missing) ↦ inr (inr (refl, sym (some_inj [] key empty), missing))
]
provided-Brings none auth key h = elim (bearer-cases auth none key h) [
  | inl token ↦ inr (inl (inl refl, token))
  | inr (gone, missing) ↦ cc
]

no_token :
    (auth : Option Text)
    → ((token : Text) → auth ≢ some (scheme ++ token))
    → bearer auth (some []) ≡ some []
unfolding bearer
no_token none h = refl
no_token (some a) h = elim (Bool-cases (starts_with a scheme)) [
  | inl token ↦ absurd (h (drop (length scheme) a) (ap some (starts_with-split scheme a token)))
  | inr missing ↦ rw missing refl
]

Brings-provided :
    (x auth : Option Text) (key : Text) → Brings x auth key → provided x auth ≡ some key
unfolding provided
Brings-provided x auth [] (inl (nonempty, e)) = absurd (nonempty refl)
Brings-provided x auth (c ∷ k) (inl (nonempty, e)) =
    subst (λ v. provided v auth ≡ some (c ∷ k)) (sym e) refl
Brings-provided x auth key (inr (inl (inl e, token))) =
    subst (λ v. provided v auth ≡ some key) (sym e) (bearer-token auth none key token)
Brings-provided x auth key (inr (inl (inr e, token))) =
    subst (λ v. provided v auth ≡ some key) (sym e) (bearer-token auth (some []) key token)
Brings-provided x auth key (inr (inr (e, empty, missing))) =
    subst (λ v. provided v auth ≡ some key) (sym e) (no_token auth missing ∙ ap some (sym empty))

-- A credential that the request brings has the bytes of the key.
abbrev pub Fits : Text → Option Text → Option Text → Type 0
Fits api_key x_api_key auth =
    (key : Text) × Brings x_api_key auth key × (encoded key ≡ encoded api_key)

check_key-Fits :
    (api_key : Text) (x auth : Option Text) (o : Option Text)
    → provided x auth ≡ o
    → (check_key api_key o ≡ call_next) ↔ Fits api_key x auth
unfolding check_key
check_key-Fits api_key x auth none h =
    ((λ e. cc), (λ (key, brings, fits). cc (h, Brings-provided x auth key brings)))
check_key-Fits api_key x auth (some k) h = (
  (λ e. (
    k,
    provided-Brings x auth k h,
    (text_beq_iff (encoded k) (encoded api_key)).0 (ground arith),
  )),
  (λ (key, brings, fits).
      let same = some_inj k key (sym h ∙ Brings-provided x auth key brings) in
      let equal = (text_beq_iff (encoded k) (encoded api_key)).1 (ap encoded same ∙ fits) in
      rw equal refl),
)

-- A request passes the gate exactly if its path is `/health` or a credential that it brings has the
-- bytes of the key. It brings what is in `x-api-key`, if that is not empty; where the header is
-- missing or empty, what is behind `Bearer ` in `authorization`; and the empty text, where the
-- header is empty and there is no such token.
pub dispatch_key_iff :
    (api_key path : Text) (x_api_key auth : Option Text)
    → (dispatch_key api_key path x_api_key auth ≡ call_next)
      ↔ ((path ≡ codes "/health") ⊎ Fits api_key x_api_key auth)
unfolding dispatch_key
dispatch_key_iff api_key path x_api_key auth = elim (Bool-cases (is_public path)) [
  | inl open_ ↦ ground (arith, text_key.same_key_iff path (codes "/health"))
  | inr closed ↦ ground (
    arith,
    text_key.same_key_iff path (codes "/health"),
    check_key-Fits api_key x_api_key auth (provided x_api_key auth) refl,
  )
]
