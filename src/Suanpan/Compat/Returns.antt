-- ===== src/Suanpan/Compat/Returns.antt =====
-- suanpan/compat.py: on which streams no call of `OpenAIChatToAnthropicSSE` raises.
use magic_ai_router.Prelude.{
  ℕ, ◌≡◌, refl, ap, ◌∙◌, inl, inr, Bool, true, false, ◌&&◌, Option, none, some, List, [], ◌∷◌, ◌++◌,
  Text, codes, lookup, is_some, text_key, Bool-cases, Option-cases, arith, if◌then◌else◌,
}
use magic_ai_router.Json.{ℤ, Json, null, str, obj, Fields, get, truthy}
use magic_ai_router.Mpconf.Validate.Ports.{int_key}
use magic_ai_router.Suanpan.Usage.{or_empty}
use magic_ai_router.Suanpan.Compat.{
  Kind, Translator, Out, after, start_message, stop_block, close_block, close, closing, stop_reason,
  ensure_text, on_text, tool_index, ensure_tool, send_found, send_arguments, tool_calls, joined,
  is_text, open_text,
}
use magic_ai_router.Suanpan.Compat.Lines.{data_of, drop_end, is_cr, is_done, unread, cut_lines}
use magic_ai_router.Suanpan.Compat.Translate.{
  str_or, on_tool, on_tools, on_calls, on_delta, on_choice, send_error, on_chunk, on_loaded,
  read_lines, feed, finish, transcribe, error_of, first_choice, usage_of, or_last,
}

-- A call of a tool whose function is a dictionary, or empty
abbrev pub is_call : Json → Bool
is_call (obj tc) = is_some (or_empty (get (codes "function") tc))
is_call _ = true

abbrev pub are_calls : Option (List Json) → Bool
are_calls none = false
are_calls (some []) = true
are_calls (some (tc ∷ tcs)) = is_call tc && are_calls (some tcs)

abbrev pub is_delta : Option Json → Bool
is_delta (some (obj delta)) = are_calls (tool_calls (get (codes "tool_calls") delta))
is_delta _ = true

-- A reason that can be looked up
abbrev pub is_reason : Option Json → Bool
is_reason o = is_some (stop_reason o)

abbrev pub is_choice : Option Fields → Bool
is_choice none = true
is_choice (some choice) =
    is_reason (get (codes "finish_reason") choice) && is_delta (get (codes "delta") choice)

abbrev pub is_chunk : Option Json → Bool
is_chunk (some (obj evt)) = is_choice (first_choice (get (codes "choices") evt))
is_chunk _ = true

abbrev Same : Translator → Out → Type 0
Same t o = o.1.finish_reason ≡ t.finish_reason

stop_block-Same : (k : Option Kind) (t : Translator) → Same t (stop_block k t)
stop_block-Same none t = refl
stop_block-Same (some k) t = refl

close_block-Same : (t : Translator) → Same t (close_block t)
unfolding close_block
close_block-Same t = stop_block-Same t.block_type t

ensure_text-Same : (t : Translator) → Same t (ensure_text t)
ensure_text-Same t = go (is_text t.block_type)
  where
    go : (b : Bool) → Same t (if b then ([], t) else after (close_block t) open_text)
    go true = refl
    go false = close_block-Same t

on_text-Same : (o : Option Json) (t : Translator) → Same t (on_text o t)
unfolding on_text
on_text-Same (some (str (c ∷ s))) t = ensure_text-Same t
on_text-Same (some (str [])) t = refl
on_text-Same none t = refl
on_text-Same (some _) t = refl

ensure_tool-Same :
    (idx : ℤ) (id name : Text) (o : Option ℕ) (t : Translator)
    → Same t (ensure_tool idx id name o t)
ensure_tool-Same idx id name (some i) t = refl
ensure_tool-Same idx id name none t = close_block-Same t

send_found-Same : (s : Text) (o : Option ℕ) (t : Translator) → Same t (send_found s o t)
send_found-Same s none t = refl
send_found-Same s (some i) t = refl

send_arguments-Same : (idx : ℤ) (o : Option Json) (t : Translator) → Same t (send_arguments idx o t)
send_arguments-Same idx (some (str (c ∷ s))) t =
    send_found-Same (c ∷ s) (lookup idx t.tool_block_for) t
send_arguments-Same idx (some (str [])) t = refl
send_arguments-Same idx none t = refl
send_arguments-Same idx (some _) t = refl

start_message-Same : (t : Translator) → Same t (start_message t)
start_message-Same t = ground arith

-- The call returns, with a reason that can be looked up.
abbrev pub Returns : Option Out → Type 0
Returns m = (o : Out) × (m ≡ some o) × (is_reason o.1.finish_reason ≡ true)

close-Returns : (t : Translator) → is_reason t.finish_reason ≡ true → Returns (close t)
unfolding close
close-Returns t h =
    let begun = start_message (record t { done = true }) in
    go (stop_reason t.finish_reason) h
      (ap is_reason (close_block-Same begun.1 ∙ start_message-Same (record t { done = true })) ∙ h)
  where
    go :
        (m : Option Text)
        → is_some m ≡ true
        → is_reason (after (start_message (record t { done = true })) close_block).1.finish_reason
          ≡ true
        → Returns (closing m (after (start_message (record t { done = true })) close_block))
    go none e k = cc
    go (some stop) e k = (_, refl, k)

either-Returns :
    (b : Bool) (x y : Option Out) → Returns x → Returns y → Returns (if b then x else y)
either-Returns true x y h k = h
either-Returns false x y h k = k

joined-Returns : (a : Out) (m : Option Out) → Returns m → Returns (joined a m)
joined-Returns (es, t) m ((fs, u), e, h) = ((es ++ fs, u), ap (joined (es, t)) e, h)

or_last-is_reason :
    (o last : Option Json)
    → is_reason o ≡ true
    → is_reason last ≡ true
    → is_reason (or_last o last) ≡ true
or_last-is_reason none last h k = k
or_last-is_reason (some v) last h k = go (truthy v)
  where
    go : (b : Bool) → is_reason (if b then some v else last) ≡ true
    go true = h
    go false = k

module _ (show : Json → Text) where
  on_tool-Same : (tc fn : Fields) (t : Translator) → Same t (on_tool show tc fn t)
  on_tool-Same tc fn t =
      let idx = tool_index (get (codes "index") tc) in
      let made =
        ensure_tool idx (str_or show [] (get (codes "id") tc))
          (str_or show [] (get (codes "name") fn)) (lookup idx t.tool_block_for) t in
      send_arguments-Same idx (get (codes "arguments") fn) made.1
      ∙ ensure_tool-Same idx _ _ (lookup idx t.tool_block_for) t

  on_tools-Returns :
      (tcs : List Json) (t : Translator)
      → are_calls (some tcs) ≡ true
      → is_reason t.finish_reason ≡ true
      → Returns (on_tools show tcs t)
  unfolding on_tools
  on_tools-Returns [] t h k = (([], t), refl, k)
  on_tools-Returns (obj tc ∷ tcs) t h k =
      elim (Option-cases (or_empty (get (codes "function") tc))) [
        | inl bad ↦ let h2 = rw bad at h in cc
        | inr (fn, good) ↦
            let h2 = rw good at h in
            let a = on_tool show tc fn t in
            rw (good, on_tools)
              (joined-Returns a (on_tools show tcs a.1)
                (on_tools-Returns tcs a.1 h2 (ap is_reason (on_tool-Same tc fn t) ∙ k)))
      ]
  on_tools-Returns (null ∷ tcs) t h k = on_tools-Returns tcs t h k
  on_tools-Returns (_ ∷ tcs) t h k = on_tools-Returns tcs t h k

  on_calls-Returns :
      (o : Out) (m : Option (List Json))
      → are_calls m ≡ true
      → is_reason o.1.finish_reason ≡ true
      → Returns (on_calls show o m)
  on_calls-Returns (es, t) none h k = cc
  on_calls-Returns (es, t) (some tcs) h k =
      joined-Returns (es, t) (on_tools show tcs t) (on_tools-Returns tcs t h k)

  on_delta-Returns :
      (v : Option Json) (o : Out)
      → is_delta v ≡ true
      → is_reason o.1.finish_reason ≡ true
      → Returns (on_delta show v o)
  unfolding on_delta
  on_delta-Returns (some (obj delta)) (es, t) h k =
      let content = get (codes "content") delta in
      on_calls-Returns (after (es, t) (on_text content))
        (tool_calls (get (codes "tool_calls") delta)) h (ap is_reason (on_text-Same content t) ∙ k)
  on_delta-Returns none o h k = (o, refl, k)
  on_delta-Returns (some _) o h k = (o, refl, k)

  on_choice-Returns :
      (c : Option Fields) (t : Translator)
      → is_choice c ≡ true
      → is_reason t.finish_reason ≡ true
      → Returns (on_choice show c t)
  on_choice-Returns none t h k = (([], t), refl, k)
  on_choice-Returns (some choice) t h k =
      let reason = get (codes "finish_reason") choice in
      let u = record t { finish_reason = or_last reason t.finish_reason } in
      let good : is_reason reason ≡ true = ground arith in
      let fits : is_delta (get (codes "delta") choice) ≡ true = ground arith in
      on_delta-Returns (get (codes "delta") choice) (start_message u) fits
        (ap is_reason (start_message-Same u) ∙ or_last-is_reason reason t.finish_reason good k)

  on_chunk-Returns :
      (evt : Fields) (t : Translator)
      → is_chunk (some (obj evt)) ≡ true
      → is_reason t.finish_reason ≡ true
      → Returns (on_chunk show evt t)
  unfolding on_chunk
  on_chunk-Returns evt t h k = elim (Option-cases (error_of (get (codes "error") evt))) [
    | inr (err, e) ↦ rw (e, on_chunk) (send_error show err t, refl, k)
    | inl e ↦
        rw (e, on_chunk)
          (on_choice-Returns (first_choice (get (codes "choices") evt))
            (record t { usage = usage_of (get (codes "usage") evt) t.usage }) h k)
  ]

  module _ (loads : Text → Option Json) (fits : (s : Text) → is_chunk (loads s) ≡ true) where
    on_loaded-Returns :
        (v : Option Json) (t : Translator)
        → is_chunk v ≡ true
        → is_reason t.finish_reason ≡ true
        → Returns (on_loaded show loads v t)
    on_loaded-Returns (some (obj evt)) t h k = on_chunk-Returns evt t h k
    on_loaded-Returns none t h k = (([], t), refl, k)
    on_loaded-Returns (some _) t h k = (([], t), refl, k)

    read_lines-Returns :
        (lines : List Text) (rest : Text) (t : Translator)
        → is_reason t.finish_reason ≡ true
        → Returns (read_lines show loads lines rest t)
    unfolding read_lines
    read_lines-Returns [] rest t h = (([], record t { buffer = rest }), refl, h)
    read_lines-Returns (line ∷ lines) rest t h =
        elim (Option-cases (data_of (drop_end is_cr line))) [
          | inl e ↦ rw (e, read_lines) (read_lines-Returns lines rest t h)
          | inr (payload, e) ↦
              rw (e, read_lines)
                (elim (Bool-cases (is_done payload)) [
                  | inl over ↦ rw over (close-Returns (record t { buffer = unread lines rest }) h)
                  | inr going ↦
                      let (a, good, k) = on_loaded-Returns (loads payload) t (fits payload) h in
                      rw going (
                        rw good (
                          joined-Returns a (read_lines show loads lines rest a.1)
                            (read_lines-Returns lines rest a.1 k)))
                ])
        ]

    feed-Returns :
        (chunk : Text) (t : Translator)
        → is_reason t.finish_reason ≡ true
        → Returns (feed show loads chunk t)
    unfolding feed
    feed-Returns chunk t h =
        let (lines, rest) = cut_lines (t.buffer ++ chunk) in
        either-Returns t.done (some ([], t)) (read_lines show loads lines rest t) (([], t), refl, h)
          (read_lines-Returns lines rest t h)

    finish-Returns :
        (t : Translator) → is_reason t.finish_reason ≡ true → Returns (finish show loads t)
    unfolding finish
    finish-Returns t h =
        either-Returns t.done (some ([], t)) (close (record t { buffer = [] })) (([], t), refl, h)
          (close-Returns (record t { buffer = [] }) h)

    pub transcribe-Returns :
        (chunks : List Text) (t : Translator)
        → is_reason t.finish_reason ≡ true
        → Returns (transcribe show loads chunks t)
    unfolding transcribe
    transcribe-Returns [] t h = finish-Returns t h
    transcribe-Returns (chunk ∷ chunks) t h =
        let (a, good, k) = feed-Returns chunk t h in
        rw (good, transcribe)
          (joined-Returns a (transcribe show loads chunks a.1) (transcribe-Returns chunks a.1 k))
