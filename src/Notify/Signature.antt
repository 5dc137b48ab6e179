-- ===== src/Notify/Signature.antt =====
-- notify/signature.go: the hash that identifies a set of alerts.
pub mod Normalize
pub mod Identity
pub mod Sorting
use weops_inspect.Prelude.{
  ℕ, zero, suc, ◌+◌, ◌-◌, ◌*◌, ◌/◌, ◌%◌, ◌^◌, ◌≤◌, ◌<◌, ◌≡◌, refl, sym, ap, ◌∙◌, ◌≢◌, ◌↔◌, ◌⊎◌, inl,
  inr, Bool, true, false, not, ◌&&◌, ◌||◌, Option, none, some, List, [], ◌∷◌, ◌++◌, map, arith, ltb,
  leb, ◌==◌, if◌then◌else◌, ltb→lt, lt→ltb, leb→le, ==_iff, tests, Bool-cases, Option-cases, length,
  length-append, filter, any, all, count_if, length-filter, count_if-append, any-append, all-append,
  ℤ, pos, negsuc, pos_part, neg_part, sub_ℕ, ◌≤ℤ◌, ltb_ℤ, leb_ℤ, eqb_ℤ, succ_int, Str, codes,
  str_eq, str_eq_iff, str_eq_refl, str_eq_sym, str_lt, str_lt_irrefl, str_lt_trans, str_lt_total,
  Dict, lookup, insert, lookup-insert, get_or, FloatOps,
}
use weops_inspect.Prelude.Strings.{contains}
use weops_inspect.Notify.Alerts.{AlertItem}

-- strings.HasPrefix, with the text behind the prefix
unfoldable pub strip_prefix : Str → Str → Option Str
strip_prefix [] s = some s
strip_prefix (x ∷ xs) [] = none
strip_prefix (x ∷ xs) (c ∷ s) = if x == c then strip_prefix xs s else none

-- The text up to the first dot, and the text behind it.
unfoldable pub cut_dot : Str → Option (Str × Str)
cut_dot [] = none
cut_dot (c ∷ s) =
    let rest = cut_dot s in
    if c == b'.' then some ([], s) else elim rest [ none ↦ none | some (a, b) ↦ some (c ∷ a, b) ]

-- s is `.+` before the suffix: one character or more, and no line feed among them.
unfoldable pub ends_with : Str → Str → Bool
ends_with suffix [] = false
ends_with suffix (c ∷ s) = not (c == 10) && (str_eq s suffix || ends_with suffix s)

-- The third group of the pattern: the kind, if the text is `(.+)\.kind`.
unfoldable pub kind_of : Str → Option Str
unfolding ends_with str_eq
kind_of s =
    if ends_with (codes ".no_consumer") s
    then some (codes "no_consumer")
    else if ends_with (codes ".backlog") s
    then some (codes "backlog")
    else none

-- "rabbitmq." + m[1] + "." + m[3], or the field itself where a step finds no match
unfoldable pub normalize_kind : Str → Str → Option Str → Str
normalize_kind field vhost none = field
normalize_kind field vhost (some kind) = codes "rabbitmq." ++ vhost ++ b'.' ∷ kind

unfoldable pub normalize_cut : Str → Option (Str × Str) → Str
unfolding normalize_kind kind_of
normalize_cut field none = field
normalize_cut field (some ([], rest)) = field
normalize_cut field (some (c ∷ vhost, rest)) = normalize_kind field (c ∷ vhost) (kind_of rest)

unfoldable pub normalize_rest : Str → Option Str → Str
unfolding normalize_cut cut_dot
normalize_rest field none = field
normalize_rest field (some rest) = normalize_cut field (cut_dot rest)

-- The pattern is ^rabbitmq\.([^.]+)\.(.+)\.(no_consumer|backlog)$.
unfoldable pub normalize_field_for_signature : Str → Str
unfolding normalize_rest strip_prefix
normalize_field_for_signature field = normalize_rest field (strip_prefix (codes "rabbitmq.") field)

unfoldable pub signature_key : AlertItem → Str
signature_key a = a.host ++ b'|' ∷ normalize_field_for_signature a.field

-- seen[k] = struct{}{}
unfoldable pub add_key : Str → List Str → List Str
unfolding contains
add_key k seen = if contains k seen then seen else k ∷ seen

unfoldable pub key_set : List AlertItem → List Str
unfolding add_key signature_key
key_set [] = []
key_set (a ∷ items) = add_key (signature_key a) (key_set items)

-- sort.Strings
unfoldable pub sort_insert : Str → List Str → List Str
sort_insert k [] = k ∷ []
sort_insert k (j ∷ js) = if str_lt j k then j ∷ sort_insert k js else k ∷ j ∷ js

unfoldable pub sort_strings : List Str → List Str
unfolding sort_insert
sort_strings [] = []
sort_strings (k ∷ ks) = sort_insert k (sort_strings ks)

-- What is written into the hash: each key and a zero byte.
unfoldable pub hash_input : List Str → Str
hash_input [] = []
hash_input (k ∷ ks) = k ++ 0 ∷ hash_input ks

-- `hex_sha256` stands for hex.EncodeToString of the sum of sha256.
module _ (hex_sha256 : Str → Str) where
  unfoldable pub signature : List AlertItem → Str
  unfolding key_set sort_strings hash_input
  signature [] = []
  signature (a ∷ items) = hex_sha256 (hash_input (sort_strings (key_set (a ∷ items))))

normalize_tests :
    (normalize_field_for_signature (codes "rabbitmq.v.celery.x.backlog")
      ≡ codes "rabbitmq.v.backlog")
    × (normalize_field_for_signature (codes "rabbitmq.v.no_consumer")
        ≡ codes "rabbitmq.v.no_consumer")
    × (normalize_field_for_signature (codes "rabbitmq.node.x") ≡ codes "rabbitmq.node.x")
unfolding normalize_field_for_signature
normalize_tests = (refl, refl, refl)
