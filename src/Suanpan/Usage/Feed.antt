-- ===== src/Suanpan/Usage/Feed.antt =====
-- `UsageExtractor.feed` of suanpan/usage_extractor.py over the chunks of a response: the result
-- does not depend on the chunks, and the buffer is bounded.
use magic_ai_router.Prelude.{
  ℕ, ◌≤◌, ◌≡◌, subst, refl, sym, ap, ◌∙◌, Bool, true, false, Option, none, some, List, [], ◌∷◌,
  ◌++◌, Text, ltb, length, arith, inl, inr, Bool-cases, Option-cases, if◌then◌else◌,
}
use magic_ai_router.Json.{Json, obj}
use magic_ai_router.Suanpan.Usage.Events.{Separator, split_events}
use magic_ai_router.Suanpan.Usage.Segments.{split_events-append}
use magic_ai_router.Suanpan.Usage.{
  Wire, Tally, UsageExtractor, max_event_bytes, max_json_doc_bytes, normalized, consume,
  consume_all, keep_rest, consume_sse, parse_doc, feed,
}

append_assoc : (a b c : Text) → a ++ (b ++ c) ≡ (a ++ b) ++ c
append_assoc [] b c = refl
append_assoc (x ∷ a) b c = ap (λ s. x ∷ s) (append_assoc a b c)

some_eq : (a b : UsageExtractor) → some a ≡ some b → a ≡ b
some_eq a b h = cc

abbrev pub limit : UsageExtractor → ℕ
limit e = if e.json_mode then max_json_doc_bytes else max_event_bytes

keep_rest-le :
    (e e1 : UsageExtractor) (rest : Text) (r : Option Tally)
    → keep_rest e rest r ≡ some e1
    → length e1.buffer ≤ max_event_bytes
keep_rest-le e e1 rest none h = ground arith
keep_rest-le e e1 rest (some t) h = ground arith

parse_doc-le :
    (e e1 : UsageExtractor) (v : Option Json)
    → length e.buffer ≤ max_json_doc_bytes
    → parse_doc e v ≡ some e1
    → length e1.buffer ≤ max_json_doc_bytes
unfolding parse_doc
parse_doc-le e e1 none l h = ground arith
parse_doc-le e e1 (some (obj fs)) l h = ground arith
parse_doc-le e e1 (some v) l h = ground arith

-- The state behind the first chunk, from its frames.
keep_rest-some :
    (e e1 : UsageExtractor) (rest : Text) (r : Option Tally)
    → keep_rest e rest r ≡ some e1
    → e1.truncated ≡ false
    → (t : Tally) × (r ≡ some t) × (record e { tally = t; buffer = rest } ≡ e1)
keep_rest-some e e1 rest none h k = ground arith
keep_rest-some e e1 rest (some t) h k = elim (Bool-cases (ltb max_event_bytes (length rest))) [
  | inl long ↦ absurd (ground arith)
  | inr short ↦ (t, refl, some_eq _ _ (rw short at h))
]

third :
    (p q : Bool) (x y z : Option UsageExtractor)
    → p ≡ false
    → q ≡ false
    → (if p then x else if q then y else z) ≡ z
third p q x y z h k = ground arith

taken : (p : Bool) (x y : Option UsageExtractor) → p ≡ true → (if p then x else y) ≡ x
taken p x y h = ground arith

second :
    (p q : Bool) (x y z : Option UsageExtractor)
    → p ≡ false
    → q ≡ true
    → (if p then x else if q then y else z) ≡ y
second p q x y z h k = ground arith

module _ (loads : Text → Option Json) where
  consume_then : Wire → List (Separator × Text) → Option Tally → Option Tally
  consume_then wire later none = none
  consume_then wire later (some t) = consume_all loads wire later t

  consume_all-append :
      (wire : Wire) (xs ys : List (Separator × Text)) (t : Tally)
      → consume_all loads wire (xs ++ ys) t ≡ consume_then wire ys (consume_all loads wire xs t)
  unfolding consume_all consume_then
  consume_all-append wire [] ys t = refl
  consume_all-append wire (x ∷ xs) ys t =
      elim (Option-cases (consume loads wire (normalized x) t)) [
        | inl e ↦ rw (e, consume_all) refl
        | inr (t1, e) ↦ rw (e, consume_all) (consume_all-append wire xs ys t1)
      ]

  sse-append :
      (e e1 : UsageExtractor) (a b : Text)
      → consume_sse loads (record e { buffer = a }) ≡ some e1
      → e1.truncated ≡ false
      → consume_sse loads (record e1 { buffer = e1.buffer ++ b })
        ≡ consume_sse loads (record e { buffer = a ++ b })
  unfolding consume_sse consume_then
  sse-append e e1 a b h k =
      let (t, r, same) = keep_rest-some (record e { buffer = a }) e1 (split_events a).1 _ h k in
      rw
        (
          sym same,
          split_events-append a b,
          consume_all-append e.wire (split_events a).0 (split_events ((split_events a).1 ++ b)).0
              e.tally,
          r,
        )
        refl

  consume_sse-fixed :
      (e e1 : UsageExtractor)
      → consume_sse loads e ≡ some e1
      → e1.truncated ≡ false
      → (e1.json_mode ≡ e.json_mode)
  unfolding consume_sse
  consume_sse-fixed e e1 h k =
      let (t, r, same) = keep_rest-some e e1 (split_events e.buffer).1 _ h k in
      sym (ap (λ x. x.json_mode) same)

  feed-stream :
      (chunk : Text) (e : UsageExtractor)
      → e.truncated ≡ false
      → e.json_mode ≡ false
      → feed loads chunk e ≡ consume_sse loads (record e { buffer = e.buffer ++ chunk })
  unfolding feed
  feed-stream chunk e open_ stream = third e.truncated e.json_mode _ _ _ open_ stream

  -- Of an event stream, two chunks have the same effect as their bytes in one, provided that the
  -- first neither raises nor ends the scan: all counts and the buffer are the same.
  pub feed-append :
      (e e1 : UsageExtractor) (a b : Text)
      → e.json_mode ≡ false
      → e.truncated ≡ false
      → feed loads a e ≡ some e1
      → e1.truncated ≡ false
      → feed loads b e1 ≡ feed loads (a ++ b) e
  feed-append e e1 a b stream open_ h k =
      let first = sym (feed-stream a e open_ stream) ∙ h in
      let mode = consume_sse-fixed (record e { buffer = e.buffer ++ a }) e1 first k ∙ stream in
      feed-stream b e1 k mode
      ∙ sse-append e e1 (e.buffer ++ a) b first k
      ∙ ap (λ s. consume_sse loads (record e { buffer = s })) (sym (append_assoc e.buffer a b))
      ∙ sym (feed-stream (a ++ b) e open_ stream)

  consume_sse-le :
      (e e1 : UsageExtractor) → consume_sse loads e ≡ some e1 → length e1.buffer ≤ max_event_bytes
  unfolding consume_sse
  consume_sse-le e e1 h = keep_rest-le e e1 (split_events e.buffer).1 _ h

  document-le :
      (e e1 : UsageExtractor) (chunk : Text)
      → (if ltb max_json_doc_bytes (length (e.buffer ++ chunk))
          then some (record e { truncated = true; buffer = [] })
          else parse_doc (record e { buffer = e.buffer ++ chunk }) (loads (e.buffer ++ chunk)))
        ≡ some e1
      → length e1.buffer ≤ max_json_doc_bytes
  document-le e e1 chunk h =
      elim (Bool-cases (ltb max_json_doc_bytes (length (e.buffer ++ chunk)))) [
        | inl long ↦
            subst (λ x. length x.buffer ≤ max_json_doc_bytes)
              (some_eq (record e { truncated = true; buffer = [] }) e1 (sym (taken _ _ _ long) ∙ h))
              (omega arith)
        | inr short ↦
            parse_doc-le (record e { buffer = e.buffer ++ chunk }) e1 (loads (e.buffer ++ chunk))
              (ground arith) (rw short at h)
      ]

  -- No chunk makes the buffer of an event stream longer than a frame may be, nor that of a document
  -- longer than a document may be.
  pub feed-le :
      (e e1 : UsageExtractor) (chunk : Text)
      → length e.buffer ≤ limit e
      → feed loads chunk e ≡ some e1
      → length e1.buffer ≤ limit e
  unfolding feed
  feed-le e e1 chunk l h = elim (Bool-cases e.truncated) [
    | inl closed ↦
        let same = some_eq e e1 (sym (taken e.truncated _ _ closed) ∙ h) in
        subst (λ x. length x.buffer ≤ limit e) same l
    | inr open_ ↦ elim (Bool-cases e.json_mode) [
      | inr stream ↦ rw stream (
          consume_sse-le (record e { buffer = e.buffer ++ chunk }) e1
            (sym (feed-stream chunk e open_ stream) ∙ h))
      | inl doc ↦
          rw doc (document-le e e1 chunk (sym (second e.truncated e.json_mode _ _ _ open_ doc) ∙ h))
    ]
  ]
