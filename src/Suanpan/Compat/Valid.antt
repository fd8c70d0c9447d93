-- ===== src/Suanpan/Compat/Valid.antt =====
-- suanpan/compat.py: what `OpenAIChatToAnthropicSSE` gives out is a message in the order of its
-- protocol.
use magic_ai_router.Prelude.{
  ◌≡◌, refl, sym, ap, subst, ◌∙◌, inl, inr, true, false, Option, none, some, List, [], ◌∷◌, ◌++◌,
  Text, Bool-cases, Option-cases,
}
use magic_ai_router.Json.{Json, obj, Fields, get}
use magic_ai_router.Prelude.{codes, text_key}
use magic_ai_router.Mpconf.Validate.Ports.{int_key}
use magic_ai_router.Suanpan.Compat.{
  Translator, Out, new_translator, start_message, close, stop_reason,
}
use magic_ai_router.Suanpan.Compat.Lines.{data_of, drop_end, is_cr, is_done, unread, cut_lines}
use magic_ai_router.Suanpan.Compat.Translate.{
  on_choice, send_error, on_chunk, on_loaded, read_lines, feed, finish, transcribe, error_of,
  first_choice, usage_of, or_last,
}
use magic_ai_router.Suanpan.Compat.Protocol.{
  Phase, before, ended, failed, accepts, values, phase_of, accepts-append,
}
use magic_ai_router.Suanpan.Compat.Returns.{is_chunk, is_reason, transcribe-Returns}
use magic_ai_router.Suanpan.Compat.Steps.{
  joined-some, out-eq, IsFresh, IsOpen, Stands, Leads, Keeps, accepts-failed, start_message-Reaches,
  reached-Keeps, close-live, error-accepted, taken, left, still-IsOpen, IsOver, IsOver-now,
  failed-Keeps, on_delta-Reaches,
}

lookable : is_reason none ≡ true
unfolding stop_reason
lookable = refl

module _ (show : Json → Text) where
  on_choice-Keeps :
      (c : Option Fields) (t : Translator) (o : Out)
      → t.done ≡ false
      → IsFresh t
      → on_choice show c t ≡ some o
      → Keeps (phase_of t) o
  unfolding accepts
  on_choice-Keeps none t o going fresh h =
      subst (Keeps (phase_of t)) (out-eq ([], t) o h) (phase_of t, refl, inl (going, refl, fresh))
  on_choice-Keeps (some choice) t o going fresh h =
      let u = record t {
        finish_reason = or_last (get (codes "finish_reason") choice) t.finish_reason;
      } in
      reached-Keeps (phase_of t) o (
        on_delta-Reaches show false (phase_of t) (get (codes "delta") choice) (start_message u) o
          (start_message-Reaches false u going fresh) h)

  on_chunk-Keeps :
      (evt : Fields) (p : Phase) (t : Translator) (o : Out)
      → IsOpen p t
      → on_chunk show evt t ≡ some o
      → Keeps p o
  unfolding on_chunk
  on_chunk-Keeps evt p t o (inr h) k = failed-Keeps p o h
  on_chunk-Keeps evt p t o (inl (going, here, fresh)) k =
      subst (λ x. Keeps x o) (sym here) (go (error_of (get (codes "error") evt)) refl)
    where
      go : (e : Option Fields) → error_of (get (codes "error") evt) ≡ e → Keeps (phase_of t) o
      go none e =
          let h2 = rw (e, on_chunk) at k in
          on_choice-Keeps (first_choice (get (codes "choices") evt))
            (record t { usage = usage_of (get (codes "usage") evt) t.usage }) o going fresh h2
      go (some err) e =
          let h2 = rw (e, on_chunk) at k in
          subst (Keeps (phase_of t)) (out-eq (send_error show err t) o h2) (
            failed,
            error-accepted t.started t.blocks t.block_type (values t.tool_block_for) _ _,
            inr refl,
          )

  closed-IsOver :
      (p : Phase) (t : Translator) (o : Out)
      → IsOpen p t
      → close t ≡ some o
      → IsOver (accepts o.0 p)
  closed-IsOver p t (es, u) (inr h) k = inr (ap (accepts es) h ∙ accepts-failed es)
  closed-IsOver p t (es, u) (inl (going, here, fresh)) k =
      inl (ap (accepts es) here ∙ (close-live t (es, u) fresh k).0)

  module _ (loads : Text → Option Json) where
    on_loaded-Keeps :
        (v : Option Json) (p : Phase) (t : Translator) (o : Out)
        → IsOpen p t
        → on_loaded show loads v t ≡ some o
        → Keeps p o
    unfolding accepts
    on_loaded-Keeps (some (obj evt)) p t o h k = on_chunk-Keeps evt p t o h k
    on_loaded-Keeps none p t o h k = subst (Keeps p) (out-eq ([], t) o k) (p, refl, h)
    on_loaded-Keeps (some _) p t o h k = subst (Keeps p) (out-eq ([], t) o k) (p, refl, h)

    close-Leads : (p : Phase) (t : Translator) (o : Out) → IsOpen p t → close t ≡ some o → Leads p o
    close-Leads p t (es, u) (inr h) k =
        (failed, ap (accepts es) h ∙ accepts-failed es, inl (inr refl))
    close-Leads p t (es, u) (inl (going, here, fresh)) k =
        let (over, done) = close-live t (es, u) fresh k in
        (ended, ap (accepts es) here ∙ over, inr (refl, done))

    lead-after :
        (p : Phase) (a b : Out)
        → Keeps p a
        → ((q : Phase) → IsOpen q a.1 → Leads q b)
        → Leads p (a.0 ++ b.0, b.1)
    lead-after p (es, t) (fs, u) (q, first, here) f =
        let (r, then_, there) = f q here in (r, accepts-append es fs p q first ∙ then_, there)

    read_lines-Leads :
        (lines : List Text) (rest : Text) (p : Phase) (t : Translator) (o : Out)
        → IsOpen p t
        → read_lines show loads lines rest t ≡ some o
        → Leads p o
    unfolding read_lines accepts
    read_lines-Leads [] rest p t o h k =
        subst (Leads p) (out-eq ([], record t { buffer = rest }) o k) (p, refl, inl h)
    read_lines-Leads (line ∷ lines) rest p t o h k =
        elim (Option-cases (data_of (drop_end is_cr line))) [
          | inl skipped ↦ read_lines-Leads lines rest p t o h (rw (skipped, read_lines) at k)
          | inr (payload, found) ↦
              let k2 = rw (found, read_lines) at k in
              elim (Bool-cases (is_done payload)) [
                | inl over ↦
                    close-Leads p (record t { buffer = unread lines rest }) o h (rw over at k2)
                | inr going ↦
                    let k3 = rw going at k2 in
                    elim (Option-cases (on_loaded show loads (loads payload) t)) [
                      | inl bad ↦ let k4 = rw bad at k3 in cc
                      | inr (a, good) ↦
                          let k4 = rw good at k3 in
                          let (b, later, same) =
                            joined-some a o (read_lines show loads lines rest a.1) k4 in
                          subst (Leads p) (sym same) (
                            lead-after p a b (on_loaded-Keeps (loads payload) p t a h good)
                              (λ q here. read_lines-Leads lines rest q a.1 b here later))
                    ]
              ]
        ]

    feed-Leads :
        (chunk : Text) (p : Phase) (t : Translator) (o : Out)
        → Stands p t
        → feed show loads chunk t ≡ some o
        → Leads p o
    unfolding feed accepts
    feed-Leads chunk p t o h k = elim (Bool-cases t.done) [
      | inl over ↦ subst (Leads p) (out-eq ([], t) o (taken t.done _ _ over k)) (p, refl, h)
      | inr going ↦
          read_lines-Leads (cut_lines (t.buffer ++ chunk)).0 (cut_lines (t.buffer ++ chunk)).1 p t o
            (still-IsOpen p t going h) (left t.done _ _ going k)
    ]

    finish-IsOver :
        (p : Phase) (t : Translator) (o : Out)
        → Stands p t
        → finish show loads t ≡ some o
        → IsOver (accepts o.0 p)
    unfolding finish accepts
    finish-IsOver p t o h k = elim (Bool-cases t.done) [
      | inl over ↦
          subst (λ (x : Out). IsOver (accepts x.0 p)) (out-eq ([], t) o (taken t.done _ _ over k))
            (IsOver-now p t over h)
      | inr going ↦
          closed-IsOver p (record t { buffer = [] }) o (still-IsOpen p t going h)
            (left t.done _ _ going k)
    ]

    transcribe-IsOver :
        (chunks : List Text) (p : Phase) (t : Translator) (o : Out)
        → Stands p t
        → transcribe show loads chunks t ≡ some o
        → IsOver (accepts o.0 p)
    unfolding transcribe
    transcribe-IsOver [] p t o h k = finish-IsOver p t o h k
    transcribe-IsOver (chunk ∷ chunks) p t o h k = elim (Option-cases (feed show loads chunk t)) [
      | inl bad ↦ let k2 = rw (bad, transcribe) at k in cc
      | inr (a, good) ↦
          let k2 = rw (good, transcribe) at k in
          let (b, later, same) = joined-some a o (transcribe show loads chunks a.1) k2 in
          let (q, first, there) = feed-Leads chunk p t a h good in
          subst (λ (x : Out). IsOver (accepts x.0 p)) (sym same)
            (subst IsOver (sym (accepts-append a.0 b.0 p q first))
              (transcribe-IsOver chunks q a.1 b there later))
    ]

    -- Of a stream whose events have a finish reason that can be looked up, a list of tool calls and
    -- calls with a function, where they have any, no call of the translator raises, whatever the
    -- chunks are. What it gives out for them and for the end is a message_start; blocks whose
    -- indices go up by one from 0, one open at a time, and each stopped; text for the open block of
    -- a text alone, and arguments for any block of a tool's call that has begun, also one that was
    -- stopped; then one message_delta and one message_stop. Or it is the beginning of such a
    -- message up to an error, and nothing is said of what stands behind the error.
    pub transcribe_lem :
        (chunks : List Text)
        → ((s : Text) → is_chunk (loads s) ≡ true)
        → (o : Out) × (transcribe show loads chunks new_translator ≡ some o)
          × IsOver (accepts o.0 before)
    transcribe_lem chunks fits =
        let (o, returned, reason) =
          transcribe-Returns show loads fits chunks new_translator lookable in
        (
          o,
          returned,
          transcribe-IsOver chunks before new_translator o
              (inl (inl (refl, refl, λ _. (refl, refl, refl)))) returned,
        )
