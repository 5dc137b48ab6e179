-- ===== src/Collector/Json.antt =====
-- collector/es.go: the values of a decoded JSON answer, and the errors of curl.
use weops_inspect.Prelude.{
  ℕ, Bool, false, ◌||◌, Option, none, some, [], ◌++◌, ltb, if◌then◌else◌, is_empty, ℤ, pos, eqb_ℤ,
  Str, codes, Dict, lookup, get_or, FloatOps,
}
use weops_inspect.Prelude.Strings.{trim_space}
use weops_inspect.Decimal.{atoi, itoa}
use weops_inspect.Collector.Probe.{
  ErrorClass, err_none, err_network, err_auth, err_protocol, err_timeout, err_unknown, Failure,
  classify,
}

-- A value of a map[string]interface{} that json.Unmarshal fills; of an array only its length is asked for,
-- and of an object nothing.
pub data Json (F : Type 0) : Type 0 where
  json_null : Json F
  json_bool : Bool → Json F
  json_number : F → Json F
  json_string : Str → Json F
  json_array : ℕ → Json F
  json_object : Json F

module _ {F : Type 0} where
  -- m[key], the nil interface where the key is missing
  unfoldable pub json_get : Str → Dict (Json F) → Json F
  unfolding lookup
  json_get key m = get_or json_null (lookup key m)

  -- jsonStr
  unfoldable pub json_str : Json F → Str
  json_str (json_string s) = s
  json_str _ = []

  -- v, ok := x.(bool), false where it is none
  unfoldable pub json_flag : Json F → Bool
  json_flag (json_bool b) = b
  json_flag _ = false

  -- parts, ok := x.([]interface{}), and len(parts) > 0
  unfoldable pub is_filled_array : Json F → Bool
  is_filled_array (json_array n) = ltb 0 n
  is_filled_array _ = false

module _ {F : Type 0} ⦃fl : FloatOps F⦄ where
  -- jsonInt
  unfoldable pub json_int : Json F → ℤ
  json_int (json_number x) = fl.to_int x
  json_int _ = pos 0

  -- v, ok := x.(float64), or the value before
  unfoldable pub json_float : F → Json F → F
  json_float old (json_number x) = x
  json_float old _ = old

-- jsonIntFromStr
unfoldable pub json_int_from_str : Str → ℤ
unfolding atoi
json_int_from_str s = (atoi s).0

-- The exit codes of curl that the program names.
unfoldable pub exit_class : ℤ → ErrorClass
exit_class code =
    if eqb_ℤ code (pos 6) || eqb_ℤ code (pos 7)
    then err_network
    else if eqb_ℤ code (pos 22)
    then err_protocol
    else if eqb_ℤ code (pos 28)
    then err_timeout
    else if eqb_ℤ code (pos 67)
    then err_auth
    else err_unknown

unfoldable pub curl_failure_class : Failure → ErrorClass
unfolding exit_class classify
curl_failure_class e = elim e.exit_code [ none ↦ classify (some e) | some code ↦ exit_class code ]

-- curlErrClass
unfoldable pub curl_err_class : Option Failure → ErrorClass
unfolding curl_failure_class
curl_err_class none = err_none
curl_err_class (some e) = curl_failure_class e

-- curlErrDetail
unfoldable pub curl_err_detail : Failure → Str
unfolding trim_space itoa
curl_err_detail e = elim e.exit_code [
  | none ↦ e.text
  | some code ↦ if is_empty e.stderr then codes "curl exit " ++ itoa code else trim_space e.stderr
]
