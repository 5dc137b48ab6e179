-- ===== src/Notify/Signature/Identity.antt =====
-- notify/signature.go: signatures and sets of keys.
use weops_inspect.Prelude.{
  ◌≡◌, refl, sym, ap, ◌∙◌, ◌≢◌, ◌↔◌, inl, inr, Bool, true, false, not, ◌||◌, List, [], ◌∷◌, ◌++◌,
  arith, ◌==◌, Bool-cases, any, all, Str, str_eq, str_eq_iff, str_eq_refl,
}
use weops_inspect.Prelude.Strings.{contains}
use weops_inspect.Notify.Alerts.{AlertItem}
use weops_inspect.Notify.Signature.{
  add_key, key_set, signature_key, sort_strings, hash_input, signature,
}
use weops_inspect.Notify.Signature.Sorting.{
  Distinct, contains-add_key, contains-sort_strings, sort_strings-Ascending, Ascending-ext,
}

-- Some item of the list has the key.
unfoldable pub has_signature_key : Str → List AlertItem → Bool
has_signature_key k = any (λ a. str_eq k (signature_key a))

contains-key_set :
    (k : Str) (items : List AlertItem) → contains k (key_set items) ≡ has_signature_key k items
unfolding key_set has_signature_key any contains
contains-key_set k [] = refl
contains-key_set k (a ∷ items) =
    contains-add_key k (signature_key a) (key_set items)
    ∙ ap (λ b. str_eq k (signature_key a) || b) (contains-key_set k items)

key_set-Distinct : (items : List AlertItem) → Distinct (key_set items)
unfolding key_set add_key
key_set-Distinct [] = tt
key_set-Distinct (a ∷ items) = elim (Bool-cases (contains (signature_key a) (key_set items))) [
  | inl old ↦ rw old (key_set-Distinct items)
  | inr new ↦ rw new (new, key_set-Distinct items)
]

sorted_keys : List AlertItem → List Str
sorted_keys items = sort_strings (key_set items)

contains-sorted_keys :
    (k : Str) (items : List AlertItem) → contains k (sorted_keys items) ≡ has_signature_key k items
unfolding sorted_keys
contains-sorted_keys k items = contains-sort_strings k (key_set items) ∙ contains-key_set k items

sorted_keys-ext :
    (xs ys : List AlertItem)
    → ((k : Str) → has_signature_key k xs ≡ has_signature_key k ys)
    → sorted_keys xs ≡ sorted_keys ys
sorted_keys-ext xs ys h =
    Ascending-ext (sorted_keys xs) (sorted_keys ys)
      (unfold sorted_keys in sort_strings-Ascending (key_set xs) (key_set-Distinct xs))
      (unfold sorted_keys in sort_strings-Ascending (key_set ys) (key_set-Distinct ys))
      λ k. contains-sorted_keys k xs ∙ h k ∙ sym (contains-sorted_keys k ys)

-- A text with no zero character.
unfoldable pub lacks_zero : Str → Bool
lacks_zero = all (λ c. not (c == 0))

all_lack_zero : List Str → Bool
all_lack_zero = all lacks_zero

split_at_zero :
    (k j r s : Str)
    → lacks_zero k ≡ true
    → lacks_zero j ≡ true
    → k ++ 0 ∷ r ≡ j ++ 0 ∷ s
    → (k ≡ j) × (r ≡ s)
unfolding lacks_zero all
split_at_zero [] [] r s h g e = ground arith
split_at_zero [] (y ∷ j) r s h g e = ground arith
split_at_zero (x ∷ k) [] r s h g e = ground arith
split_at_zero (x ∷ k) (y ∷ j) r s h g e = ground (arith, split_at_zero k j r s)

hash_input-injective :
    (ks js : List Str)
    → all_lack_zero ks ≡ true
    → all_lack_zero js ≡ true
    → hash_input ks ≡ hash_input js
    → ks ≡ js
unfolding hash_input all_lack_zero all
hash_input-injective [] [] h g e = refl
hash_input-injective [] ([] ∷ js) h g e = cc
hash_input-injective [] ((y ∷ j) ∷ js) h g e = cc
hash_input-injective ([] ∷ ks) [] h g e = cc
hash_input-injective ((x ∷ k) ∷ ks) [] h g e = cc
hash_input-injective (k ∷ ks) (j ∷ js) h g e =
    ground (arith, split_at_zero k j (hash_input ks) (hash_input js), hash_input-injective ks js)

all_lack_zero_of_contains :
    (ks : List Str)
    → ((k : Str) → contains k ks ≡ true → lacks_zero k ≡ true)
    → all_lack_zero ks ≡ true
unfolding all_lack_zero all contains any
all_lack_zero_of_contains [] h = refl
all_lack_zero_of_contains (k ∷ ks) h =
    ground (arith, h k, str_eq_refl k, all_lack_zero_of_contains ks λ j c. h j (ground (arith, c)))

-- No key of the items holds a zero byte.
unfoldable pub clean : List AlertItem → Bool
clean = all (λ a. lacks_zero (signature_key a))

lacks_zero-clean :
    (items : List AlertItem) (k : Str)
    → clean items ≡ true
    → has_signature_key k items ≡ true
    → lacks_zero k ≡ true
unfolding clean has_signature_key all any
lacks_zero-clean [] k h p = cc
lacks_zero-clean (a ∷ items) k h p =
    ground (arith, lacks_zero-clean items k, str_eq_iff k (signature_key a))

sorted_keys-clean :
    (items : List AlertItem) → clean items ≡ true → all_lack_zero (sorted_keys items) ≡ true
sorted_keys-clean items h =
    all_lack_zero_of_contains (sorted_keys items)
      λ k c. lacks_zero-clean items k h (sym (contains-sorted_keys k items) ∙ c)

-- The text that Signature hashes.
unfoldable pub signature_input : List AlertItem → Str
unfolding sorted_keys
signature_input items = hash_input (sorted_keys items)

has_some_key :
    (a : AlertItem) (items : List AlertItem)
    → has_signature_key (signature_key a) (a ∷ items) ≡ true
unfolding has_signature_key any
has_some_key a items = rw str_eq_refl refl

no_key : (k : Str) → has_signature_key k [] ≡ false
unfolding has_signature_key any
no_key k = refl

module _ (hex_sha256 : Str → Str) where
  -- Items with the same set of normalised keys have the same signature.
  pub signature-ext :
      (xs ys : List AlertItem)
      → ((k : Str) → has_signature_key k xs ≡ has_signature_key k ys)
      → signature hex_sha256 xs ≡ signature hex_sha256 ys
  unfolding signature
  signature-ext [] [] h = refl
  signature-ext [] (y ∷ ys) h =
      cc (h (signature_key y), has_some_key y ys, no_key (signature_key y))
  signature-ext (x ∷ xs) [] h =
      cc (h (signature_key x), has_some_key x xs, no_key (signature_key x))
  signature-ext (x ∷ xs) (y ∷ ys) h =
      ap (λ ks. hex_sha256 (hash_input ks))
        (unfold sorted_keys in sorted_keys-ext (x ∷ xs) (y ∷ ys) h)

  same_input_same_keys :
      (xs ys : List AlertItem)
      → clean xs ≡ true
      → clean ys ≡ true
      → signature_input xs ≡ signature_input ys
      → (k : Str) → has_signature_key k xs ≡ has_signature_key k ys
  unfolding signature_input
  same_input_same_keys xs ys cx cy e k =
      let same =
        hash_input-injective (sorted_keys xs) (sorted_keys ys) (sorted_keys-clean xs cx)
          (sorted_keys-clean ys cy) e in
      sym (contains-sorted_keys k xs) ∙ ap (contains k) same ∙ contains-sorted_keys k ys

  -- Where no key holds a zero byte, sha256 does not collide on the two texts that are hashed, and
  -- no hash is the empty text: two alert lists have the same signature exactly if they have the
  -- same set of normalised keys.
  pub signature-eq_iff :
      (xs ys : List AlertItem)
      → clean xs ≡ true
      → clean ys ≡ true
      → ((t : Str) → hex_sha256 t ≢ [])
      → (hex_sha256 (signature_input xs) ≡ hex_sha256 (signature_input ys)
          → signature_input xs ≡ signature_input ys)
      → (signature hex_sha256 xs ≡ signature hex_sha256 ys)
        ↔ ((k : Str) → has_signature_key k xs ≡ has_signature_key k ys)
  unfolding signature
  signature-eq_iff [] [] cx cy ne inj = ((λ e k. refl), λ h. refl)
  signature-eq_iff [] (y ∷ ys) cx cy ne inj =
      ((λ e. absurd (ne _ (sym e))), signature-ext [] (y ∷ ys))
  signature-eq_iff (x ∷ xs) [] cx cy ne inj = ((λ e. absurd (ne _ e)), signature-ext (x ∷ xs) [])
  signature-eq_iff (x ∷ xs) (y ∷ ys) cx cy ne inj = (
    (λ e. same_input_same_keys (x ∷ xs) (y ∷ ys) cx cy (inj (unfold signature_input in e))),
    signature-ext (x ∷ xs) (y ∷ ys),
  )
