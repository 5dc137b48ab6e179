-- ===== src/Notify/Signature/Sorting.antt =====
-- notify/signature.go: the sorted lists of keys.
use weops_inspect.Prelude.{
  ◌≡◌, refl, sym, ap, ◌∙◌, inl, inr, true, false, ◌||◌, List, [], ◌∷◌, arith, Bool-cases, any, Str,
  str_eq, str_eq_iff, str_eq_refl, str_lt, str_lt_irrefl, str_lt_trans, str_lt_total,
}
use weops_inspect.Prelude.Strings.{contains}
use weops_inspect.Notify.Signature.{add_key, sort_insert, sort_strings}

-- Every key of the list is above k.
abbrev pub Above : Str → List Str → Type 0
Above k [] = Unit
Above k (j ∷ js) = (str_lt k j ≡ true) × Above k js

abbrev pub Ascending : List Str → Type 0
Ascending [] = Unit
Ascending (k ∷ ks) = Above k ks × Ascending ks

abbrev pub Distinct : List Str → Type 0
Distinct [] = Unit
Distinct (k ∷ ks) = (contains k ks ≡ false) × Distinct ks

pub contains-add_key :
    (k j : Str) (ks : List Str) → contains k (add_key j ks) ≡ (str_eq k j || contains k ks)
unfolding add_key contains any
contains-add_key k j ks = ground (arith, str_eq_iff k j)

pub contains-sort_insert :
    (k j : Str) (ks : List Str) → contains k (sort_insert j ks) ≡ (str_eq k j || contains k ks)
unfolding sort_insert contains any
contains-sort_insert k j [] = refl
contains-sort_insert k j (i ∷ is) = ground (arith, contains-sort_insert k j is)

pub contains-sort_strings : (k : Str) (ks : List Str) → contains k (sort_strings ks) ≡ contains k ks
unfolding sort_strings contains any
contains-sort_strings k [] = refl
contains-sort_strings k (j ∷ js) =
    ground (arith, contains-sort_insert k j (sort_strings js), contains-sort_strings k js)

Above-lt : (j k : Str) (ks : List Str) → str_lt j k ≡ true → Above k ks → Above j ks
Above-lt j k [] h a = tt
Above-lt j k (i ∷ is) h (p, a) = (str_lt_trans j k i h p, Above-lt j k is h a)

pub contains-Above : (k : Str) (ks : List Str) → Above k ks → contains k ks ≡ false
unfolding contains any
contains-Above k [] a = refl
contains-Above k (j ∷ js) (p, a) =
    ground (arith, contains-Above k js a, str_eq_iff k j, str_lt_irrefl k)

Above-sort_insert :
    (j k : Str) (ks : List Str) → str_lt j k ≡ true → Above j ks → Above j (sort_insert k ks)
unfolding sort_insert
Above-sort_insert j k [] h a = (h, tt)
Above-sort_insert j k (i ∷ is) h (p, a) = elim (Bool-cases (str_lt i k)) [
  | inl q ↦ rw q (p, Above-sort_insert j k is h a)
  | inr q ↦ rw q (h, (p, a))
]

sort_insert-Ascending :
    (k : Str) (ks : List Str) → contains k ks ≡ false → Ascending ks → Ascending (sort_insert k ks)
unfolding sort_insert contains any
sort_insert-Ascending k [] h a = (tt, tt)
sort_insert-Ascending k (j ∷ js) h (p, a) = elim (Bool-cases (str_lt j k)) [
  | inl q ↦ rw q (Above-sort_insert j k js q p, sort_insert-Ascending k js (ground arith) a)
  | inr q ↦
      let lt : str_lt k j ≡ true = ground (arith, str_lt_total j k, str_eq_iff k j) in
      rw q ((lt, Above-lt k j js lt p), (p, a))
]

pub sort_strings-Ascending : (ks : List Str) → Distinct ks → Ascending (sort_strings ks)
unfolding sort_strings
sort_strings-Ascending [] d = tt
sort_strings-Ascending (k ∷ ks) (h, d) =
    sort_insert-Ascending k (sort_strings ks) (contains-sort_strings k ks ∙ h)
      (sort_strings-Ascending ks d)

contains_head : (k : Str) (ks : List Str) → contains k (k ∷ ks) ≡ true
unfolding contains any
contains_head k ks = ground (arith, str_eq_refl k)

contains_nil : (k : Str) → contains k [] ≡ false
unfolding contains any
contains_nil k = refl

-- Two ascending lists that contain one another's first key.
lt_of_Above : (k j : Str) (ks : List Str) → Above k ks → contains j ks ≡ true → str_lt k j ≡ true
unfolding contains any
lt_of_Above k j [] a h = cc
lt_of_Above k j (i ∷ is) (p, a) h = ground (arith, lt_of_Above k j is a, str_eq_iff j i)

least_eq :
    (k j : Str) (ks js : List Str)
    → Above k ks
    → Above j js
    → contains j (k ∷ ks) ≡ true
    → contains k (j ∷ js) ≡ true
    → k ≡ j
unfolding contains any
least_eq k j ks js a b p q = ground (
  arith,
  lt_of_Above k j ks a,
  lt_of_Above j k js b,
  str_eq_iff j k,
  str_eq_iff k j,
  str_lt_trans k j k,
  str_lt_irrefl k,
)

tails_eq :
    (k : Str) (ks js : List Str)
    → Above k ks
    → Above k js
    → (i : Str) → contains i (k ∷ ks) ≡ contains i (k ∷ js)
    → contains i ks ≡ contains i js
unfolding contains any
tails_eq k ks js a b i h =
    ground (arith, h, str_eq_iff i k, contains-Above k ks a, contains-Above k js b)

-- Two ascending lists with the same members are the same list.
pub Ascending-ext :
    (ks js : List Str)
    → Ascending ks
    → Ascending js
    → ((i : Str) → contains i ks ≡ contains i js)
    → ks ≡ js
Ascending-ext [] [] a b h = refl
Ascending-ext [] (j ∷ js) a b h = cc (h j, contains_head j js, contains_nil j)
Ascending-ext (k ∷ ks) [] a b h = cc (h k, contains_head k ks, contains_nil k)
Ascending-ext (k ∷ ks) (j ∷ js) (p, a) (q, b) h =
    let e = least_eq k j ks js p q (h j ∙ contains_head j js) (sym (h k) ∙ contains_head k ks) in
    let q' : Above k js = rw e q in
    cc (
      e,
      Ascending-ext ks js a b
          λ i. tails_eq k ks js p q' i (h i ∙ ap (λ x. contains i (x ∷ js)) (sym e)),
    )
