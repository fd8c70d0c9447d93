-- ===== src/Suanpan/Compat/Normalize/Clean.antt =====
-- suanpan/compat.py: what `normalize_body` leaves has none of the fields, and is left alone by it.
use magic_ai_router.Prelude.{
  ℕ, ◌≤◌, ◌≡◌, refl, sym, ap, ◌∙◌, inl, inr, Bool, true, false, not, ◌&&◌, ◌||◌, Option, none, some,
  Text, codes, nat_beq, text_key, ◌==◌, Bool-cases, arith, if◌then◌else◌,
}
use mathlib.Core.Option
use magic_ai_router.Json.{Json, arr, obj, null, Items, nil, cons, Fields, end, field, get}
use magic_ai_router.Suanpan.Compat.Normalize.{
  update, is_document, without_documents, size, or_placeholder, strip_content,
}

pub update-update :
    (k : Text) (f g : Json → Json) (fs : Fields)
    → ((v : Json) → g (f v) ≡ f v)
    → update k g (update k f fs) ≡ update k f fs
update-update k f g end h = refl
update-update k f g (field j v fs) h = elim (Bool-cases (j == k)) [
  | inl same ↦ rw same (rw same (ap (λ x. field j x fs) (h v)))
  | inr other ↦ rw other (rw other (ap (field j v) (update-update k f g fs h)))
]

pub update-other :
    (k j : Text) (f g : Json → Json) (fs : Fields)
    → (k == j) ≡ false
    → update k f (update j g fs) ≡ update j g (update k f fs)
update-other k j f g end h = refl
update-other k j f g (field i v fs) h = ground (
  arith,
  text_key.same_key_iff i k,
  text_key.same_key_iff i j,
  text_key.same_key_iff k j,
  update-other k j f g fs h,
)

pub get-update :
    (k : Text) (f : Json → Json) (fs : Fields) → get k (update k f fs) ≡ Option.map f (get k fs)
get-update k f end = refl
get-update k f (field j v fs) = ground (arith, get-update k f fs)

pub get-update_other :
    (k j : Text) (f : Json → Json) (fs : Fields)
    → (j == k) ≡ false
    → get k (update j f fs) ≡ get k fs
get-update_other k j f end h = refl
get-update_other k j f (field i v fs) h = ground (
  arith,
  text_key.same_key_iff i k,
  text_key.same_key_iff i j,
  text_key.same_key_iff j k,
  get-update_other k j f fs h,
)

abbrev pub has_document : Items → Bool
has_document nil = false
has_document (cons b bs) = is_document b || has_document bs

abbrev pub clean_content : Option Json → Bool
clean_content (some (arr content)) = not (has_document content)
clean_content _ = true

abbrev pub clean_message : Json → Bool
clean_message (obj msg) = clean_content (get (codes "content") msg)
clean_message _ = true

abbrev pub has_none : Option Json → Bool
has_none none = true
has_none (some _) = false

abbrev pub clean_tool : Json → Bool
clean_tool (obj tool) =
    has_none (get (codes "defer_loading") tool)
    && has_none (get (codes "eager_input_streaming") tool)
clean_tool _ = true

abbrev pub all_items : (Json → Bool) → Items → Bool
all_items p nil = true
all_items p (cons v vs) = p v && all_items p vs

abbrev pub all_of : (Json → Bool) → Option Json → Bool
all_of p (some (arr vs)) = all_items p vs
all_of p _ = true

abbrev pub is_flat : Option Json → Bool
is_flat (some (arr _)) = false
is_flat _ = true

-- The system prompt is no list, no message has a document, and no tool has one of the two fields.
abbrev pub is_clean : Fields → Bool
is_clean body =
    is_flat (get (codes "system") body)
    && all_of clean_message (get (codes "messages") body)
    && all_of clean_tool (get (codes "tools") body)

keep-keep : (bs : Items) → without_documents (without_documents bs) ≡ without_documents bs
keep-keep nil = refl
keep-keep (cons b bs) = elim (Bool-cases (is_document b)) [
  | inl out ↦ rw out (keep-keep bs)
  | inr stays ↦ rw stays (rw stays (ap (cons b) (keep-keep bs)))
]

size-le : (bs : Items) → size (without_documents bs) ≤ size bs
size-le nil = omega arith
size-le (cons b bs) = ground (arith, size-le bs)

all_kept : (bs : Items) → size (without_documents bs) ≡ size bs → has_document bs ≡ false
all_kept nil h = refl
all_kept (cons b bs) h = elim (Bool-cases (is_document b)) [
  | inl out ↦ let h2 = rw out at h in absurd (omega (arith, size-le bs))
  | inr stays ↦ let h2 = rw stays at h in rw stays (all_kept bs (omega arith))
]

none_left : (bs : Items) → has_document (without_documents bs) ≡ false
none_left nil = refl
none_left (cons b bs) = elim (Bool-cases (is_document b)) [
  | inl out ↦ rw out (none_left bs)
  | inr stays ↦ rw stays (rw stays (none_left bs))
]

placeholder-clean :
    (bs : Items) → has_document bs ≡ false → has_document (or_placeholder bs) ≡ false
unfolding is_document
placeholder-clean nil h = refl
placeholder-clean (cons b bs) h = h

placeholder-stays :
    (bs : Items)
    → without_documents bs ≡ bs
    → without_documents (or_placeholder bs) ≡ or_placeholder bs
unfolding is_document
placeholder-stays nil h = refl
placeholder-stays (cons b bs) h = h

kept : (b : Bool) (v w : Json) → b ≡ true → (if b then v else w) ≡ v
kept true v w h = refl
kept false v w h = cc

stable : (bs : Items) → without_documents bs ≡ bs → strip_content (arr bs) ≡ arr bs
stable bs h =
    kept (nat_beq (size (without_documents bs)) (size bs)) (arr bs) _
      (ap (λ cs. nat_beq (size cs) (size bs)) h ∙ self (size bs))
  where
    self : (n : ℕ) → nat_beq n n ≡ true
    self n = ground arith

pub strip_content-again : (v : Json) → strip_content (strip_content v) ≡ strip_content v
strip_content-again (arr bs) = elim (Bool-cases (nat_beq (size (without_documents bs)) (size bs))) [
  | inl same ↦ let e : strip_content (arr bs) ≡ arr bs = rw same refl in ap strip_content e
  | inr fewer ↦
      let filtered = or_placeholder (without_documents bs) in
      let e : strip_content (arr bs) ≡ arr filtered = rw fewer refl in
      ap strip_content e
      ∙ stable filtered (placeholder-stays (without_documents bs) (keep-keep bs))
      ∙ sym e
]
strip_content-again (null) = refl
strip_content-again _ = refl

pub strip_content-clean : (v : Json) → clean_content (some (strip_content v)) ≡ true
strip_content-clean (arr bs) = elim (Bool-cases (nat_beq (size (without_documents bs)) (size bs))) [
  | inl same ↦ rw same (ap not (all_kept bs (ground arith)))
  | inr fewer ↦ rw fewer (ap not (placeholder-clean (without_documents bs) (none_left bs)))
]
strip_content-clean null = refl
strip_content-clean _ = refl
