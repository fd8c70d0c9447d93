-- ===== src/Suanpan/Compat/Steps.antt =====
-- suanpan/compat.py, `_on_chunk` and `_close`: what `OpenAIChatToAnthropicSSE` gives out for one
-- chunk and at the end.
use magic_ai_router.Prelude.{
  ℕ, ◌≡◌, refl, sym, ap, subst, ◌∙◌, ◌⊎◌, inl, inr, Bool, true, false, Option, none, some, List, [],
  ◌∷◌, ◌++◌, Text, Dict, lookup, Bool-cases, Option-cases, arith, if◌then◌else◌,
}
use magic_ai_router.Json.{ℤ, Json, null, obj, Fields, get}
use magic_ai_router.Prelude.{codes, text_key}
use magic_ai_router.Mpconf.Validate.Ports.{int_key}
use magic_ai_router.Suanpan.Usage.{or_empty}
use magic_ai_router.Suanpan.Compat.{
  Kind, Usage, Translator, Out, StreamEvent, start_message, close_block, close, closing,
  stop_reason, on_text, tool_index, ensure_tool, send_arguments, tool_calls, joined, message_delta,
  message_stop, error, text, tool_use, usage_from_openai,
}
use magic_ai_router.Suanpan.Compat.Translate.{str_or, on_tool, on_tools, on_calls, on_delta}
use magic_ai_router.Suanpan.Compat.Protocol.{
  Phase, before, live, ended, failed, accept, accepts, values, phase_of, live_of, accepts-append,
  Goes, stays, after-Goes, close_block-none, on_text-Goes, ensure_tool-Goes, send_arguments-Goes,
  close_block-Goes,
}

pub joined-some :
    (a o : Out) (m : Option Out)
    → joined a m ≡ some o
    → (b : Out) × (m ≡ some b) × (o ≡ (a.0 ++ b.0, b.1))
joined-some a o none h = cc
joined-some (es, t) o (some (fs, u)) h = ((fs, u), refl, (let e : o ≡ (es ++ fs, u) = cc in e))

pub out-eq : (a b : Out) → some a ≡ some b → a ≡ b
out-eq a b h = cc

-- The translator has begun and the message is where it stands.
abbrev pub Reaches : Bool → Phase → Out → Type 0
Reaches d p (es, u) = (accepts es p ≡ some (live_of u)) × (u.started ≡ true) × (u.done ≡ d)

then-Reaches :
    (d : Bool) (p : Phase) (es fs : List StreamEvent) (t u : Translator)
    → Reaches d p (es, t)
    → Goes t (fs, u)
    → Reaches d p (es ++ fs, u)
then-Reaches d p es fs t u (first, started, done) (then_, kept, kept_done) =
    (accepts-append es fs p (live_of t) first ∙ then_, kept ∙ started, kept_done ∙ done)

module _ (show : Json → Text) where
  on_tool-Goes : (tc fn : Fields) (t : Translator) → Goes t (on_tool show tc fn t)
  on_tool-Goes tc fn t =
      let idx = tool_index (get (codes "index") tc) in
      let made =
        ensure_tool idx (str_or show [] (get (codes "id") tc))
          (str_or show [] (get (codes "name") fn)) (lookup idx t.tool_block_for) t in
      after-Goes t made (send_arguments idx (get (codes "arguments") fn))
        (ensure_tool-Goes idx _ _ (lookup idx t.tool_block_for) t refl)
        (send_arguments-Goes idx (get (codes "arguments") fn) made.1)

  on_tools-Goes :
      (tcs : List Json) (t : Translator) (o : Out) → on_tools show tcs t ≡ some o → Goes t o
  unfolding on_tools
  on_tools-Goes [] t o h = subst (Goes t) (out-eq ([], t) o h) (stays t)
  on_tools-Goes (obj tc ∷ tcs) t o h = elim (Option-cases (or_empty (get (codes "function") tc))) [
    | inl bad ↦ let h2 = rw (bad, on_tools) at h in cc
    | inr (fn, good) ↦
        let h2 = rw (good, on_tools) at h in
        let a = on_tool show tc fn t in
        let (b, rest, same) = joined-some a o (on_tools show tcs a.1) h2 in
        subst (Goes t) (sym same)
          (after-Goes t a (λ _. b) (on_tool-Goes tc fn t) (on_tools-Goes tcs a.1 b rest))
  ]
  on_tools-Goes (null ∷ tcs) t o h = on_tools-Goes tcs t o h
  on_tools-Goes (_ ∷ tcs) t o h = on_tools-Goes tcs t o h

  calls-Reaches :
      (d : Bool) (p : Phase) (o r : Out) (m : Option (List Json))
      → Reaches d p o
      → on_calls show o m ≡ some r
      → Reaches d p r
  calls-Reaches d p (es, t) r none h k = cc
  calls-Reaches d p (es, t) r (some tcs) h k =
      let ((fs, u), rest, same) = joined-some (es, t) r (on_tools show tcs t) k in
      subst (Reaches d p) (sym same)
        (then-Reaches d p es fs t u h (on_tools-Goes tcs t (fs, u) rest))

  pub on_delta-Reaches :
      (d : Bool) (p : Phase) (v : Option Json) (o r : Out)
      → Reaches d p o
      → on_delta show v o ≡ some r
      → Reaches d p r
  unfolding on_delta
  on_delta-Reaches d p (some (obj delta)) (es, t) r h k =
      let content = get (codes "content") delta in
      let said = on_text content t in
      calls-Reaches d p (es ++ said.0, said.1) r (tool_calls (get (codes "tool_calls") delta))
        (then-Reaches d p es said.0 t said.1 h (on_text-Goes content t)) k
  on_delta-Reaches d p none o r h k = subst (Reaches d p) (out-eq o r k) h
  on_delta-Reaches d p (some _) o r h k = subst (Reaches d p) (out-eq o r k) h

-- A translator that has not begun has no block.
abbrev pub IsFresh : Translator → Type 0
IsFresh t = t.started ≡ false → (t.blocks ≡ 0) × (t.block_type ≡ none) × (t.tool_block_for ≡ [])

-- The message is still going on where the translator stands, or an error was sent.
abbrev pub IsOpen : Phase → Translator → Type 0
IsOpen p t = ((t.done ≡ false) × (p ≡ phase_of t) × IsFresh t) ⊎ (p ≡ failed)

-- It is going on, is over, or an error was sent.
abbrev pub Stands : Phase → Translator → Type 0
Stands p t = IsOpen p t ⊎ ((p ≡ ended) × (t.done ≡ true))

abbrev pub Leads : Phase → Out → Type 0
Leads p (es, t) = (q : Phase) × (accepts es p ≡ some q) × Stands q t

abbrev pub Keeps : Phase → Out → Type 0
Keeps p (es, t) = (q : Phase) × (accepts es p ≡ some q) × IsOpen q t

pub accepts-failed : (es : List StreamEvent) → accepts es failed ≡ some failed
unfolding accepts accept
accepts-failed [] = refl
accepts-failed (e ∷ es) = accepts-failed es

live-fresh :
    (n : ℕ) (k : Option Kind) (m : Dict ℤ ℕ)
    → n ≡ 0
    → k ≡ none
    → m ≡ []
    → some (live 0 none []) ≡ some (live n k (values m))
live-fresh n k m a b c = rw (a, b, c) refl

pub start_message-Reaches :
    (d : Bool) (t : Translator) → t.done ≡ d → IsFresh t → Reaches d (phase_of t) (start_message t)
unfolding accepts accept
start_message-Reaches d t going fresh = elim (Bool-cases t.started) [
  | inl begun ↦ rw begun (refl, refl, going)
  | inr new ↦
      let (no_block, none_open, no_tool) = fresh new in
      rw new
        (live-fresh t.blocks t.block_type t.tool_block_for no_block none_open no_tool, refl, going)
]

-- A translator that has begun is never one that has not.
begun-IsFresh : (t : Translator) → t.started ≡ true → IsFresh t
begun-IsFresh t h k = absurd (ground arith)

pub reached-Keeps : (p : Phase) (o : Out) → Reaches false p o → Keeps p o
reached-Keeps p (es, t) (h, started, done) =
    (live_of t, h, inl (done, (rw started refl), begun-IsFresh t started))

end-accepts :
    (n : ℕ) (k : Option Kind) (ts : List ℕ) (stop : Text) (u : Usage)
    → k ≡ none
    → accepts (message_delta stop u ∷ message_stop ∷ []) (live n k ts) ≡ some ended
unfolding accepts accept
end-accepts n k ts stop u h = rw h refl

closing-ended :
    (p : Phase) (m : Option Text) (a o : Out)
    → Reaches true p a
    → a.1.block_type ≡ none
    → closing m a ≡ some o
    → (accepts o.0 p ≡ some ended) × (o.1.done ≡ true)
closing-ended p none (es, t) o h k e = cc
closing-ended p (some stop) (es, t) o (h, started, done) k e =
    subst (λ (x : Out). (accepts x.0 p ≡ some ended) × (x.1.done ≡ true)) (out-eq _ o e)
      (
        accepts-append es _ p (live_of t) h
            ∙ end-accepts t.blocks t.block_type (values t.tool_block_for) stop
                (usage_from_openai t.usage) k,
        done,
      )

pub close-live :
    (t : Translator) (o : Out)
    → IsFresh t
    → close t ≡ some o
    → (accepts o.0 (phase_of t) ≡ some ended) × (o.1.done ≡ true)
unfolding close
close-live t o fresh h =
    let (es, t1) = start_message (record t { done = true }) in
    let made = close_block t1 in
    let reached : Reaches true (phase_of t) (es ++ made.0, made.1) =
      then-Reaches true (phase_of t) es made.0 t1 made.1
        (start_message-Reaches true (record t { done = true }) refl fresh) (close_block-Goes t1) in
    closing-ended (phase_of t) (stop_reason t.finish_reason) (es ++ made.0, made.1) o reached
      (close_block-none t1) h

pub taken :
    (b : Bool) (x y : Option Out) {z : Option Out} → b ≡ true → (if b then x else y) ≡ z → x ≡ z
taken true x y e h = h
taken false x y e h = cc

pub left :
    (b : Bool) (x y : Option Out) {z : Option Out} → b ≡ false → (if b then x else y) ≡ z → y ≡ z
left true x y e h = cc
left false x y e h = h

pub still-IsOpen : (p : Phase) (t : Translator) → t.done ≡ false → Stands p t → IsOpen p t
still-IsOpen p t going (inl h) = h
still-IsOpen p t going (inr (over, done)) = absurd (ground arith)

-- The message is over, or an error was sent.
abbrev pub IsOver : Option Phase → Type 0
IsOver o = (o ≡ some ended) ⊎ (o ≡ some failed)

pub IsOver-now : (p : Phase) (t : Translator) → t.done ≡ true → Stands p t → IsOver (some p)
IsOver-now p t over (inl (inl (going, here, fresh))) = absurd (ground arith)
IsOver-now p t over (inl (inr h)) = inr (ap some h)
IsOver-now p t over (inr (h, done)) = inl (ap some h)

pub error-accepted :
    (b : Bool) (n : ℕ) (k : Option Kind) (ts : List ℕ) (kind message : Text)
    → accepts (error kind message ∷ []) (if b then live n k ts else before) ≡ some failed
unfolding accepts accept
error-accepted true n none ts kind message = refl
error-accepted true n (some text) ts kind message = refl
error-accepted true n (some tool_use) ts kind message = refl
error-accepted false n k ts kind message = refl

pub failed-Keeps : (p : Phase) (o : Out) → p ≡ failed → Keeps p o
failed-Keeps p (es, t) h = (failed, ap (accepts es) h ∙ accepts-failed es, inr refl)
