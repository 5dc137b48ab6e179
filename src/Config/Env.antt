-- ===== src/Config/Env.antt =====
-- config/config.go: what Load reads a variable of the environment with. The environment is what
-- os.LookupEnv answers.
use weops_inspect.Prelude.{
  ◌≡◌, refl, Bool, true, false, ◌||◌, Option, none, some, List, [], ◌∷◌, if◌then◌else◌, is_empty, ℤ,
  pos, Str, codes, str_eq, get_or, FloatOps,
}
use weops_inspect.Prelude.Strings.{trim_space, split, to_lower}
use weops_inspect.Decimal.{atoi}

pub data LoadError : Type 0 where
  invalid_float invalid_int : Str → Str → LoadError

-- A value, or the error that aborts Load.
pub data Loaded {ℓ} (A : Type ℓ) : Type ℓ where
  loaded : A → Loaded A
  failed : LoadError → Loaded A

infixl 5 ◌>>=◌
abbrev pub ◌>>=◌ {ℓ κ} : {A : Type ℓ} {B : Type κ} → Loaded A → (A → Loaded B) → Loaded B
loaded a >>= f = f a
failed e >>= f = failed e

abbrev pub error_of {ℓ} : {A : Type ℓ} → Loaded A → Option LoadError
error_of (loaded a) = none
error_of (failed e) = some e

abbrev pub Env : Type 0
Env = Str → Option Str

-- os.Getenv
unfoldable pub getenv : Env → Str → Str
getenv env key = get_or [] (env key)

-- The loops of parseIPList and of parseVHostBlacklist.
unfoldable pub trimmed_parts : List Str → List Str
unfolding trim_space
trimmed_parts [] = []
trimmed_parts (p ∷ ps) =
    let rest = trimmed_parts ps in let t = trim_space p in if is_empty t then rest else t ∷ rest

unfoldable pub parse_ip_list : Str → List Str
unfolding trimmed_parts split
parse_ip_list val = if is_empty val then [] else trimmed_parts (split b',' val)

unfoldable pub first_non_empty : List Str → Str
first_non_empty [] = []
first_non_empty (v ∷ vs) = let rest = first_non_empty vs in if is_empty v then rest else v

unfoldable pub env_or_default : Env → Str → Str → Str
unfolding getenv
env_or_default env key def = let v = getenv env key in if is_empty v then def else v

unfoldable pub parse_float_env : {F : Type 0} ⦃fl : FloatOps F⦄ → Env → Str → F → Loaded F
unfolding getenv
parse_float_env ⦃fl⦄ env key def =
    let v = getenv env key in
    let (f, good) = fl.parse_float v in
    if is_empty v then loaded def else if good then loaded f else failed (invalid_float key v)

unfoldable pub parse_int_env : Env → Str → ℤ → Loaded ℤ
unfolding getenv atoi
parse_int_env env key def =
    let v = getenv env key in
    let (n, good) = atoi v in
    if is_empty v then loaded def else if good then loaded n else failed (invalid_int key v)

abbrev pub blacklist_key : Str
blacklist_key = codes "INSPECT_RABBITMQ_NO_CONSUMER_VHOST_BLACKLIST"

unfoldable pub parse_vhost_blacklist : Env → Str → List Str → List Str
unfolding trimmed_parts split
parse_vhost_blacklist env env_val def = elim (env blacklist_key) [
  | none ↦ def
  | some _ ↦ trimmed_parts (split b',' env_val)
]

unfoldable pub parse_bool_env : Env → Str → Bool → Bool
unfolding getenv to_lower trim_space
parse_bool_env env key def =
    let v = to_lower (trim_space (getenv env key)) in
    if is_empty v
    then def
    else str_eq v (codes "1")
      || str_eq v (codes "true")
      || str_eq v (codes "yes")
      || str_eq v (codes "on")

env_tests :
    (parse_ip_list (codes " 10.0.0.1, ,10.0.0.2 ,") ≡ codes "10.0.0.1" ∷ codes "10.0.0.2" ∷ [])
    × (parse_bool_env (λ _. some (codes " Yes ")) [] false ≡ true)
    × (parse_int_env (λ _. some (codes "12x")) (codes "K") (pos 3)
        ≡ failed (invalid_int (codes "K") (codes "12x")))
unfolding parse_ip_list parse_bool_env parse_int_env str_eq
env_tests = (refl, refl, refl)
