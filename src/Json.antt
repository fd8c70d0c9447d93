-- ===== src/Json.antt =====
-- Values that `json.loads` and `yaml.safe_load` return: the dynamic data that the program reads
-- from request bodies, logs and configuration files. Each container of the block has a list type of
-- its own. A real is its decimal literal, `mantissa * 10 ^ -scale`; no component computes with one.
use magic_ai_router.Prelude.{
  ℕ, zero, ◌≡◌, Bool, true, false, not, Option, none, some, List, [], ◌∷◌, Text, text_key, ◌==◌,
  if◌then◌else◌,
}

-- `negsuc n` is -(n + 1).
pub data ℤ : Type 0 where
  pos : ℕ → ℤ
  negsuc : ℕ → ℤ

mutual
  pub data Json : Type 0 where
    null : Json
    bool : Bool → Json
    int : ℤ → Json
    real : ℤ → ℕ → Json
    str : Text → Json
    arr : Items → Json
    obj : Fields → Json

  pub data Items : Type 0 where
    nil : Items
    cons : Json → Items → Items

  pub data Fields : Type 0 where
    end : Fields
    field : Text → Json → Fields → Fields

-- `d.get(key)`, without a default
abbrev pub get : Text → Fields → Option Json
get key end = none
get key (field k v fs) = if k == key then some v else get key fs

abbrev pub items : Items → List Json
items nil = []
items (cons v vs) = v ∷ items vs

abbrev is_zero : ℤ → Bool
is_zero (pos zero) = true
is_zero _ = false

-- `bool(value)`
abbrev pub truthy : Json → Bool
truthy null = false
truthy (bool b) = b
truthy (int n) = not (is_zero n)
truthy (real m _) = not (is_zero m)
truthy (str []) = false
truthy (str (_ ∷ _)) = true
truthy (arr nil) = false
truthy (arr (cons _ _)) = true
truthy (obj end) = false
truthy (obj (field _ _ _)) = true

-- The value as a `dict`, a `str` or a `list`, where `isinstance` says that it is one.
abbrev pub as_obj : Json → Option Fields
as_obj (obj fs) = some fs
as_obj _ = none

abbrev pub as_str : Json → Option Text
as_str (str s) = some s
as_str _ = none

abbrev pub as_arr : Json → Option (List Json)
as_arr (arr xs) = some (items xs)
as_arr _ = none

pub eq_obj_of_as_obj : (v : Json) (fs : Fields) → as_obj v ≡ some fs → v ≡ obj fs
eq_obj_of_as_obj (obj gs) fs h = cc
eq_obj_of_as_obj null fs h = cc
eq_obj_of_as_obj _ fs h = cc

pub eq_str_of_as_str : (v : Json) (s : Text) → as_str v ≡ some s → v ≡ str s
eq_str_of_as_str (str t) s h = cc
eq_str_of_as_str null s h = cc
eq_str_of_as_str _ s h = cc
