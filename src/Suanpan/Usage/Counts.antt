-- ===== src/Suanpan/Usage/Counts.antt =====
-- The counts of suanpan/usage_extractor.py only grow, and which frames they are not read from.
use magic_ai_router.Prelude.{
  ℕ, ◌≤◌, ◌≡◌, subst, refl, Bool, true, false, ◌&&◌, ◌||◌, Option, none, some, List, [], ◌∷◌, ◌++◌,
  Text, codes, nat_beq, has_char, starts_with, ltb, length, arith, inl, inr, Bool-cases,
  Option-cases, if◌then◌else◌,
}
use magic_ai_router.Json.{Json, Fields, null, bool, int, real, str, arr, obj, get, pos, negsuc}
use magic_ai_router.Suanpan.Usage.Events.{Separator, cr, split_events}
use magic_ai_router.Suanpan.Usage.{
  Wire, anthropic, openai_chat, responses, Tally, UsageExtractor, max_event_bytes,
  max_json_doc_bytes, raise_to, merge, merge_cached, merge_responses, merge_openai, merge_wire,
  merge_if, merge_found, consume_data, normalized, replace_pair, payload, split_lines,
  consume_loaded, consume_line, consume_lines, consume, consume_all, keep_rest, consume_sse,
  parse_doc, feed, or_empty, is_text,
}

-- No count is less than before.
pub record IsGrown (a b : Tally) : Type 0 where
  pub input : a.input_tokens ≤ b.input_tokens
  pub output : a.output_tokens ≤ b.output_tokens
  pub cache_read : a.cache_read_tokens ≤ b.cache_read_tokens
  pub cache_creation : a.cache_creation_tokens ≤ b.cache_creation_tokens

raise_to-le : (v : Option Json) (n : ℕ) → n ≤ raise_to v n
unfolding raise_to
raise_to-le none n = omega arith
raise_to-le (some (int (pos m))) n = ground arith
raise_to-le (some (int (negsuc m))) n = omega arith
raise_to-le (some (bool true)) n = ground arith
raise_to-le (some (bool false)) n = omega arith
raise_to-le (some null) n = omega arith
raise_to-le (some (real m s)) n = omega arith
raise_to-le (some (str s)) n = omega arith
raise_to-le (some (arr xs)) n = omega arith
raise_to-le (some (obj fs)) n = omega arith

IsGrown-refl : (t : Tally) → IsGrown t t
IsGrown-refl t = ground arith

IsGrown-trans : (a b c : Tally) → IsGrown a b → IsGrown b c → IsGrown a c
IsGrown-trans a b c h k = ground arith

merge-IsGrown : (usage : Fields) (t : Tally) → IsGrown t (merge usage t)
unfolding merge
merge-IsGrown usage t = record {
  input = raise_to-le _ _;
  output = raise_to-le _ _;
  cache_read = raise_to-le _ _;
  cache_creation = raise_to-le _ _;
}

merge_cached-IsGrown : (v : Option Json) (t : Tally) → IsGrown t (merge_cached v t)
merge_cached-IsGrown (some (obj details)) t = record {
  input = omega arith;
  output = omega arith;
  cache_read = raise_to-le _ _;
  cache_creation = omega arith;
}
merge_cached-IsGrown none t = IsGrown-refl t
merge_cached-IsGrown (some null) t = IsGrown-refl t
merge_cached-IsGrown (some _) t = IsGrown-refl t

merge_responses-IsGrown : (usage : Fields) (t : Tally) → IsGrown t (merge_responses usage t)
unfolding merge_responses
merge_responses-IsGrown usage t =
    IsGrown-trans t (merge usage t) _ (merge-IsGrown usage t)
      (merge_cached-IsGrown _ (merge usage t))

merge_openai-IsGrown : (usage : Fields) (t : Tally) → IsGrown t (merge_openai usage t)
unfolding merge_openai
merge_openai-IsGrown usage t =
    IsGrown-trans t
      (record t {
        input_tokens = raise_to (get (codes "prompt_tokens") usage) t.input_tokens;
        output_tokens = raise_to (get (codes "completion_tokens") usage) t.output_tokens;
      })
      _
      (record {
        input = raise_to-le _ _;
        output = raise_to-le _ _;
        cache_read = omega arith;
        cache_creation = omega arith;
      })
      (merge_cached-IsGrown _ _)

merge_wire-IsGrown :
    (wire : Wire) (usage : Fields) (t : Tally) → IsGrown t (merge_wire wire usage t)
unfolding merge_wire
merge_wire-IsGrown anthropic usage t = merge-IsGrown usage t
merge_wire-IsGrown openai_chat usage t = merge_openai-IsGrown usage t
merge_wire-IsGrown responses usage t = merge_responses-IsGrown usage t

merge_if-IsGrown :
    (m : Fields → Tally → Tally) (v : Option Json) (t : Tally)
    → ((usage : Fields) → IsGrown t (m usage t))
    → IsGrown t (merge_if m v t)
merge_if-IsGrown m (some (obj usage)) t h = h usage
merge_if-IsGrown m none t h = IsGrown-refl t
merge_if-IsGrown m (some null) t h = IsGrown-refl t
merge_if-IsGrown m (some _) t h = IsGrown-refl t

-- A result that does not raise is grown.
abbrev Grows : Tally → Option Tally → Type 0
Grows t none = Unit
Grows t (some u) = IsGrown t u

merge_found-Grows : (usage : Option Fields) (t : Tally) → Grows t (merge_found usage t)
merge_found-Grows none t = tt
merge_found-Grows (some usage) t = merge-IsGrown usage t

consume_data-Grows : (wire : Wire) (fs : Fields) (t : Tally) → Grows t (consume_data wire fs t)
unfolding consume_data
consume_data-Grows openai_chat fs t =
    merge_if-IsGrown merge_openai _ t (λ usage. merge_openai-IsGrown usage t)
consume_data-Grows responses fs t =
    elim (Bool-cases (
      is_text (get (codes "type") fs) (codes "response.completed")
      || is_text (get (codes "type") fs) (codes "response.incomplete"))) [
        | inl final ↦
            rw final
              (merge_if-IsGrown merge_responses _ t (λ usage. merge_responses-IsGrown usage t))
        | inr other ↦ rw other (IsGrown-refl t)
      ]
consume_data-Grows anthropic fs t =
    elim (Bool-cases (is_text (get (codes "type") fs) (codes "message_start"))) [
      | inl start ↦ rw start (merge_found-Grows _ t)
      | inr other ↦ elim (Bool-cases (is_text (get (codes "type") fs) (codes "message_delta"))) [
        | inl delta ↦ rw (other, delta) (merge_found-Grows _ t)
        | inr none_ ↦ rw (other, none_) (IsGrown-refl t)
      ]
    ]

module _ (loads : Text → Option Json) where
  consume_loaded-Grows :
      (wire : Wire) (v : Option Json) (t : Tally) → Grows t (consume_loaded loads wire v t)
  unfolding consume_loaded
  consume_loaded-Grows wire (some (obj fs)) t = consume_data-Grows wire fs t
  consume_loaded-Grows wire none t = IsGrown-refl t
  consume_loaded-Grows wire (some null) t = IsGrown-refl t
  consume_loaded-Grows wire (some _) t = IsGrown-refl t

  consume_line-Grows :
      (wire : Wire) (line : Text) (t : Tally) → Grows t (consume_line loads wire line t)
  unfolding consume_line
  consume_line-Grows wire line t = elim (Option-cases (payload line)) [
    | inl e ↦ rw (e, Grows, consume_line) (IsGrown-refl t)
    | inr (text, e) ↦ rw (e, Grows, consume_line) (consume_loaded-Grows wire (loads text) t)
  ]

  -- A run of two steps that do not raise.
  Grows-then :
      (t : Tally) (r : Option Tally) (next : Tally → Option Tally)
      → Grows t r
      → ((u : Tally) → Grows u (next u))
      → Grows t (elim r [ none ↦ none | some u ↦ next u ])
  Grows-then t none next h k = tt
  Grows-then t (some u) next h k = Grows-weaken t u (next u) h (k u)
    where
      Grows-weaken : (t u : Tally) (r : Option Tally) → IsGrown t u → Grows u r → Grows t r
      Grows-weaken t u none h k = tt
      Grows-weaken t u (some v) h k = IsGrown-trans t u v h k

  consume_lines-Grows :
      (wire : Wire) (lines : List Text) (t : Tally) → Grows t (consume_lines loads wire lines t)
  unfolding consume_lines
  consume_lines-Grows wire [] t = IsGrown-refl t
  consume_lines-Grows wire (line ∷ lines) t =
      Grows-then t (consume_line loads wire line t) (consume_lines loads wire lines)
        (consume_line-Grows wire line t) (consume_lines-Grows wire lines)

  consume_all-Grows :
      (wire : Wire) (events : List (Separator × Text)) (t : Tally)
      → Grows t (consume_all loads wire events t)
  unfolding consume_all consume
  consume_all-Grows wire [] t = IsGrown-refl t
  consume_all-Grows wire (event ∷ events) t =
      Grows-then t (consume loads wire (normalized event) t) (consume_all loads wire events)
        (consume_lines-Grows wire (split_lines (normalized event)) t)
        (consume_all-Grows wire events)

  -- What a scan leaves, if it does not raise, has grown from a tally.
  abbrev Grown : Tally → Option UsageExtractor → Type 0
  Grown t none = Unit
  Grown t (some e) = IsGrown t e.tally

  keep_rest-Grown :
      (e : UsageExtractor) (rest : Text) (r : Option Tally)
      → Grows e.tally r
      → Grown e.tally (keep_rest e rest r)
  keep_rest-Grown e rest none h = tt
  keep_rest-Grown e rest (some t) h = elim (Bool-cases (ltb max_event_bytes (length rest))) [
    | inl long ↦ rw long h
    | inr short ↦ rw short h
  ]

  or_usage-Grown :
      (e : UsageExtractor) (usage : Option Fields)
      → Grown e.tally (elim usage [
        | none ↦ none
        | some fs ↦ some (record e { tally = merge_wire e.wire fs e.tally; buffer = [] })
      ])
  or_usage-Grown e none = tt
  or_usage-Grown e (some fs) = merge_wire-IsGrown e.wire fs e.tally

  parse_doc-Grown : (e : UsageExtractor) (v : Option Json) → Grown e.tally (parse_doc e v)
  unfolding parse_doc
  parse_doc-Grown e none = IsGrown-refl e.tally
  parse_doc-Grown e (some (obj fs)) = or_usage-Grown e (or_empty (get (codes "usage") fs))
  parse_doc-Grown e (some null) = IsGrown-refl e.tally
  parse_doc-Grown e (some _) = IsGrown-refl e.tally

  if-Grown :
      (t : Tally) (p : Bool) (x y : Option UsageExtractor)
      → Grown t x
      → Grown t y
      → Grown t (if p then x else y)
  if-Grown t true x y h k = h
  if-Grown t false x y h k = k

  feed-Grown : (chunk : Text) (e : UsageExtractor) → Grown e.tally (feed loads chunk e)
  unfolding feed consume_sse
  feed-Grown chunk e =
      let e1 = record e { buffer = e.buffer ++ chunk } in
      let cut = split_events e1.buffer in
      let closed = record e { truncated = true; buffer = [] } in
      let over = ltb max_json_doc_bytes (length e1.buffer) in
      let parsed = parse_doc e1 (loads e1.buffer) in
      let document = if over then some closed else parsed in
      let stream = keep_rest e1 cut.1 (consume_all loads e.wire cut.0 e.tally) in
      if-Grown e.tally e.truncated (some e) (if e.json_mode then document else stream)
        (IsGrown-refl e.tally)
        (if-Grown e.tally e.json_mode document stream
          (if-Grown e.tally over (some closed) parsed (IsGrown-refl e.tally)
            (parse_doc-Grown e1 (loads e1.buffer)))
          (keep_rest-Grown e1 cut.1 (consume_all loads e.wire cut.0 e.tally)
            (consume_all-Grows e.wire cut.0 e.tally)))

  -- No chunk makes a count smaller.
  pub feed-IsGrown :
      (e e1 : UsageExtractor) (chunk : Text)
      → feed loads chunk e ≡ some e1
      → IsGrown e.tally e1.tally
  feed-IsGrown e e1 chunk h = subst (Grown e.tally) h (feed-Grown chunk e)

-- `b"\r\r"` occurs in a frame.
abbrev pub has_double_cr : Text → Bool
has_double_cr [] = false
has_double_cr (c ∷ []) = false
has_double_cr (c ∷ d ∷ s) = (nat_beq c 13 && nat_beq d 13) || has_double_cr (d ∷ s)

replace_pair-none : (s : Text) → has_double_cr s ≡ false → replace_pair 13 13 s ≡ s
unfolding replace_pair
replace_pair-none [] h = refl
replace_pair-none (c ∷ []) h = refl
replace_pair-none (c ∷ d ∷ s) h = ground (arith, replace_pair-none (d ∷ s))

split_lines-one : (s : Text) → has_char 10 s ≡ false → split_lines s ≡ s ∷ []
unfolding split_lines has_char
split_lines-one [] h = refl
split_lines-one (c ∷ s) h = ground (arith, split_lines-one s)

-- A frame that a double carriage return ends, whose lines a single one divides, is read as one
-- line: where its first line is not the data, none of its counts is taken.
pub cr_frame_unread :
    (loads : Text → Option Json) (wire : Wire) (frame : Text) (t : Tally)
    → has_double_cr frame ≡ false
    → has_char 10 frame ≡ false
    → starts_with frame (codes "data:") ≡ false
    → consume loads wire (normalized (cr, frame)) t ≡ some t
unfolding consume consume_lines consume_line normalized payload
cr_frame_unread loads wire frame t single line other =
    rw (replace_pair-none frame single, split_lines-one frame line)
      (rw (other, consume_lines, consume_line, payload) refl)
