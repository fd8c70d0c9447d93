-- ===== src/Suanpan/Compat/Protocol.antt =====
-- The order of events by which what suanpan/compat.py gives out is judged. It is that of a message,
-- except that arguments may go to a block that was stopped, as the code sends them when a call of a
-- tool is taken up again, and that nothing is asked of what stands behind an error.
use magic_ai_router.Prelude.{
  ℕ, ◌+◌, ◌-◌, ◌≡◌, refl, ap, ◌∙◌, inl, inr, Bool, true, false, ◌||◌, Option, none, some, List, [],
  ◌∷◌, ◌++◌, Text, Dict, lookup, insert, nat_beq, ◌==◌, Bool-cases, Option-cases, arith,
  if◌then◌else◌,
}
use magic_ai_router.Json.{ℤ, Json, str}
use magic_ai_router.Mpconf.Validate.Ports.{int_key}
use magic_ai_router.Suanpan.Compat.{
  Kind, text, tool_use, text_block, tool_block, StreamEvent, message_start, content_block_start,
  text_delta, input_json_delta, content_block_stop, message_delta, message_stop, error, Translator,
  Out, after, stop_block, close_block, open_text, send_text, ensure_text, on_text, is_text,
  open_tool, ensure_tool, send_found, send_arguments,
}

-- The message has not begun; it has, with so many blocks begun, the kind of the one that is open,
-- and the indices of those that are calls of tools; its delta was sent; it is over; an error was
-- sent.
pub data Phase : Type 0 where
  before : Phase
  live : ℕ → Option Kind → List ℕ → Phase
  closed ended failed : Phase

abbrev holds : ℕ → List ℕ → Bool
holds i [] = false
holds i (j ∷ js) = nat_beq j i || holds i js

abbrev when : Bool → Phase → Option Phase
when b p = if b then some p else none

-- A block begins with the next index while none is open, a text goes on only while it is open, a
-- tool's arguments go to a call that has begun, be it stopped or not, and the open block is the
-- last that ended.
unfoldable pub accept : Phase → StreamEvent → Option Phase
accept failed e = some failed
accept before message_start = some (live 0 none [])
accept before (error _ _) = some failed
accept (live n k ts) (error _ _) = some failed
accept (live n none ts) (content_block_start i text_block) =
    when (nat_beq i n) (live (n + 1) (some text) ts)
accept (live n none ts) (content_block_start i (tool_block _ _)) =
    when (nat_beq i n) (live (n + 1) (some tool_use) (ts ++ i ∷ []))
accept (live n (some text) ts) (text_delta i _) = when (nat_beq i (n - 1)) (live n (some text) ts)
accept (live n k ts) (input_json_delta i _) = when (holds i ts) (live n k ts)
accept (live n (some k) ts) (content_block_stop i) = when (nat_beq i (n - 1)) (live n none ts)
accept (live n none ts) (message_delta _ _) = some closed
accept closed message_stop = some ended
accept _ _ = none

unfoldable pub accepts : List StreamEvent → Phase → Option Phase
accepts [] p = some p
accepts (e ∷ es) p = elim (accept p e) [ none ↦ none | some q ↦ accepts es q ]

abbrev pub values : Dict ℤ ℕ → List ℕ
values [] = []
values ((k, v) ∷ m) = v ∷ values m

-- Where a translator that has begun stands, and any that has not ended.
abbrev pub live_of : Translator → Phase
live_of t = live t.blocks t.block_type (values t.tool_block_for)

abbrev pub phase_of : Translator → Phase
phase_of t = if t.started then live_of t else before

some_inj : (p q : Phase) → some p ≡ some q → p ≡ q
some_inj p q h = cc

pub accepts-append :
    (es fs : List StreamEvent) (p q : Phase)
    → accepts es p ≡ some q
    → accepts (es ++ fs) p ≡ accepts fs q
unfolding accepts
accepts-append [] fs p q h = ap (accepts fs) (some_inj p q h)
accepts-append (e ∷ es) fs p q h = elim (Option-cases (accept p e)) [
  | inl bad ↦ let h2 = rw (bad, accepts) at h in cc
  | inr (r, good) ↦
      let h2 = rw (good, accepts) at h in rw (good, accepts) (accepts-append es fs r q h2)
]

-- What a step of a translator that has begun gives out takes the message to where it then stands.
abbrev pub Goes : Translator → Out → Type 0
Goes t (es, u) =
    (accepts es (live_of t) ≡ some (live_of u)) × (u.started ≡ t.started) × (u.done ≡ t.done)

pub stays : (t : Translator) → Goes t ([], t)
unfolding accepts
stays t = (refl, refl, refl)

pub after-Goes :
    (t : Translator) (o : Out) (f : Translator → Out)
    → Goes t o
    → Goes o.1 (f o.1)
    → Goes t (after o f)
after-Goes t (es, u) f (first, started, done) (then_, started_then, done_then) = (
  accepts-append es (f u).0 (live_of t) (live_of u) first ∙ then_,
  started_then ∙ started,
  done_then ∙ done,
)

nat_beq_self : (n : ℕ) → nat_beq n n ≡ true
nat_beq_self n = ground arith

stop_block-Goes : (k : Option Kind) (t : Translator) → t.block_type ≡ k → Goes t (stop_block k t)
unfolding accepts accept
stop_block-Goes none t h = (refl, refl, refl)
stop_block-Goes (some k) t h = (rw h (rw (nat_beq_self (t.blocks - 1)) refl), refl, refl)

pub close_block-Goes : (t : Translator) → Goes t (close_block t)
unfolding close_block
close_block-Goes t = stop_block-Goes t.block_type t refl

stop_block-none :
    (k : Option Kind) (t : Translator) → t.block_type ≡ k → (stop_block k t).1.block_type ≡ none
stop_block-none none t h = h
stop_block-none (some k) t h = refl

pub close_block-none : (t : Translator) → (close_block t).1.block_type ≡ none
unfolding close_block
close_block-none t = stop_block-none t.block_type t refl

open_text-Goes : (t : Translator) → t.block_type ≡ none → Goes t (open_text t)
unfolding accepts accept
open_text-Goes t h = (rw h (rw (nat_beq_self t.blocks) refl), refl, refl)

send_text-Goes : (s : Text) (t : Translator) → t.block_type ≡ some text → Goes t (send_text s t)
unfolding accepts accept
send_text-Goes s t h = (rw h (rw (nat_beq_self (t.blocks - 1)) refl), refl, refl)

text-of_is_text : (k : Option Kind) → is_text k ≡ true → k ≡ some text
text-of_is_text none h = cc
text-of_is_text (some text) h = refl
text-of_is_text (some tool_use) h = cc

either :
    (P : Out → Type 0) (b : Bool) (o p : Out)
    → (b ≡ true → P o)
    → (b ≡ false → P p)
    → P (if b then o else p)
either P true o p h k = h refl
either P false o p h k = k refl

ensure_text-text : (t : Translator) → (ensure_text t).1.block_type ≡ some text
ensure_text-text t =
    either (λ o. o.1.block_type ≡ some text) (is_text t.block_type) ([], t)
      (after (close_block t) open_text) (text-of_is_text t.block_type) (λ _. refl)

ensure_text-Goes : (t : Translator) → Goes t (ensure_text t)
ensure_text-Goes t =
    either (Goes t) (is_text t.block_type) ([], t) (after (close_block t) open_text) (λ _. stays t)
      (λ _.
        after-Goes t (close_block t) open_text (close_block-Goes t)
          (open_text-Goes (close_block t).1 (close_block-none t)))

pub on_text-Goes : (o : Option Json) (t : Translator) → Goes t (on_text o t)
unfolding on_text
on_text-Goes (some (str (c ∷ s))) t =
    after-Goes t (ensure_text t) (send_text (c ∷ s)) (ensure_text-Goes t)
      (send_text-Goes (c ∷ s) (ensure_text t).1 (ensure_text-text t))
on_text-Goes (some (str [])) t = stays t
on_text-Goes none t = stays t
on_text-Goes (some _) t = stays t

values-insert :
    (idx : ℤ) (n : ℕ) (m : Dict ℤ ℕ)
    → lookup idx m ≡ none
    → values (insert idx n m) ≡ values m ++ n ∷ []
values-insert idx n [] h = refl
values-insert idx n ((k, v) ∷ m) h = elim (Bool-cases (k == idx)) [
  | inl same ↦ let h2 = rw same at h in cc
  | inr other ↦ let h2 = rw other at h in rw other (ap (λ vs. v ∷ vs) (values-insert idx n m h2))
]

holds-values : (idx : ℤ) (i : ℕ) (m : Dict ℤ ℕ) → lookup idx m ≡ some i → holds i (values m) ≡ true
holds-values idx i [] h = cc
holds-values idx i ((k, v) ∷ m) h = elim (Bool-cases (k == idx)) [
  | inl same ↦ let h2 = rw same at h in let e : v ≡ i = cc in rw e (rw (nat_beq_self i) refl)
  | inr other ↦ let h2 = rw other at h in rw (holds-values idx i m h2) (ground arith)
]

open_tool-Goes :
    (idx : ℤ) (id name : Text) (t : Translator)
    → t.block_type ≡ none
    → lookup idx t.tool_block_for ≡ none
    → Goes t (open_tool idx id name t)
unfolding accepts accept
open_tool-Goes idx id name t h new = (
  rw h (rw (nat_beq_self t.blocks) (rw (values-insert idx t.blocks t.tool_block_for new) refl)),
  refl,
  refl,
)

close_block-tools : (t : Translator) → (close_block t).1.tool_block_for ≡ t.tool_block_for
unfolding close_block
close_block-tools t = go t.block_type
  where
    go : (k : Option Kind) → (stop_block k t).1.tool_block_for ≡ t.tool_block_for
    go none = refl
    go (some k) = refl

pub ensure_tool-Goes :
    (idx : ℤ) (id name : Text) (o : Option ℕ) (t : Translator)
    → lookup idx t.tool_block_for ≡ o
    → Goes t (ensure_tool idx id name o t)
ensure_tool-Goes idx id name (some i) t h = stays t
ensure_tool-Goes idx id name none t h =
    after-Goes t (close_block t) (open_tool idx id name) (close_block-Goes t) (
      open_tool-Goes idx id name (close_block t).1 (close_block-none t)
        (ap (lookup idx) (close_block-tools t) ∙ h))

send_found-Goes :
    (idx : ℤ) (s : Text) (o : Option ℕ) (t : Translator)
    → lookup idx t.tool_block_for ≡ o
    → Goes t (send_found s o t)
unfolding accepts accept
send_found-Goes idx s none t h = stays t
send_found-Goes idx s (some i) t h =
    (rw (holds-values idx i t.tool_block_for h, accepts, accept) refl, refl, refl)

pub send_arguments-Goes :
    (idx : ℤ) (o : Option Json) (t : Translator) → Goes t (send_arguments idx o t)
send_arguments-Goes idx (some (str (c ∷ s))) t =
    send_found-Goes idx (c ∷ s) (lookup idx t.tool_block_for) t refl
send_arguments-Goes idx (some (str [])) t = stays t
send_arguments-Goes idx none t = stays t
send_arguments-Goes idx (some _) t = stays t
