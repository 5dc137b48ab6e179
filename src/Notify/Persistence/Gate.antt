-- ===== src/Notify/Persistence/Gate.antt =====
-- notify/persistence.go: one pass of ApplyPersistence.
use weops_inspect.Prelude.{
  zero, suc, ◌≡◌, refl, sym, ◌∙◌, inl, inr, Bool, true, false, not, ◌&&◌, ◌||◌, none, some, List,
  [], ◌∷◌, ◌++◌, arith, if◌then◌else◌, Bool-cases, filter-true, filter, any, ℤ, pos, negsuc, ltb_ℤ,
  leb_ℤ, eqb_ℤ, Str, str_eq, str_eq_iff, Dict, lookup, lookup-insert, get_or,
}
use mathlib.Core.List.{append-nil, append_assoc}
use weops_inspect.Notify.Alerts.{AlertItem}
use weops_inspect.Notify.Persistence.{
  Time, PendingItem, PersistenceResult, key_of, observe, visit, walk, empty_result,
  apply_persistence,
}

-- Some item of the list has the key.
unfoldable pub has_key : Str → List AlertItem → Bool
has_key k = any (λ it. str_eq (key_of it) k)

-- The gate as a test of a key: it is off for n ≤ 1, and else asks for the n-th sighting.
unfoldable pub confirmed : Dict PendingItem → ℤ → Time → Str → Bool
confirmed prev n now k = leb_ℤ n (pos 1) || leb_ℤ n (observe (lookup k prev) now).count

module _ (prev : Dict PendingItem) (n : ℤ) (now : Time) where
  abbrev passes : Str → Bool
  passes k = leb_ℤ n (observe (lookup k prev) now).count

  filtered-walk :
      (items : List AlertItem) (res : PersistenceResult)
      → (walk prev n now items res).filtered
        ≡ res.filtered ++ filter (λ it. passes (key_of it)) items
  unfolding walk filter visit
  filtered-walk [] res = sym (append-nil res.filtered)
  filtered-walk (it ∷ its) res = elim (Bool-cases (passes (key_of it))) [
    | inl p ↦ filtered-walk its (visit prev n now it res) ∙ rw (p, append_assoc) refl
    | inr p ↦ filtered-walk its (visit prev n now it res) ∙ rw p refl
  ]

  lookup-walk :
      (k : Str) (items : List AlertItem) (res : PersistenceResult)
      → lookup k (walk prev n now items res).next_pending ≡ (
          if has_key k items && not (passes k)
          then some (observe (lookup k prev) now)
          else lookup k res.next_pending)
  unfolding walk visit has_key any
  lookup-walk k [] res = refl
  lookup-walk k (it ∷ its) res = ground (
    arith,
    lookup-walk k its (visit prev n now it res),
    str_eq_iff (key_of it) k,
    lookup-insert (key_of it) k (observe (lookup (key_of it) prev) now) res.next_pending,
  )

  lookup_keys-walk :
      (k : Str) (items : List AlertItem) (res : PersistenceResult)
      → get_or false (lookup k (walk prev n now items res).pending_keys)
        ≡ (has_key k items && not (passes k)) || get_or false (lookup k res.pending_keys)
  unfolding walk visit has_key any
  lookup_keys-walk k [] res = refl
  lookup_keys-walk k (it ∷ its) res = ground (
    arith,
    lookup_keys-walk k its (visit prev n now it res),
    str_eq_iff (key_of it) k,
    lookup-insert (key_of it) k true res.pending_keys,
  )

-- An off gate: n is at most 1.
off : ℤ → Bool
off n = eqb_ℤ (if ltb_ℤ n (pos 1) then pos 1 else n) (pos 1)

off-eq-leb_ℤ : (n : ℤ) → off n ≡ leb_ℤ n (pos 1)
unfolding off
off-eq-leb_ℤ (pos zero) = refl
off-eq-leb_ℤ (pos (suc n)) = ground arith
off-eq-leb_ℤ (negsuc n) = ground arith

pub record Gated (prev : Dict PendingItem) (n : ℤ) (now : Time) (items : List AlertItem)
    (res : PersistenceResult) : Type 0 where
  pub passed : res.filtered ≡ filter (λ it. confirmed prev n now (key_of it)) items
  pub kept :
      (k : Str)
      → lookup k res.next_pending ≡ (
          if has_key k items && not (confirmed prev n now k)
          then some (observe (lookup k prev) now)
          else none)
  pub held :
      (k : Str)
      → get_or false (lookup k res.pending_keys) ≡ (has_key k items && not (confirmed prev n now k))

module _ (items : List AlertItem) (prev : Dict PendingItem) (n : ℤ) (now : Time) where
  gate_off :
      leb_ℤ n (pos 1) ≡ true → Gated prev n now items (record empty_result { filtered = items })
  unfolding confirmed lookup
  gate_off h = record {
    passed = rw h (sym (filter-true items));
    kept = λ k. ground arith;
    held = λ k. ground arith;
  }

  gate_on :
      (m : ℤ)
      → m ≡ n
      → leb_ℤ n (pos 1) ≡ false
      → Gated prev n now items (walk prev m now items empty_result)
  unfolding confirmed lookup
  gate_on m e h = rw e (record {
    passed = rw h (filtered-walk prev n now items empty_result);
    kept = λ k. rw h (lookup-walk prev n now k items empty_result);
    held = λ k. ground (arith, lookup_keys-walk prev n now k items empty_result);
  })

  -- Of one pass over any items, with any pending map, any n and any time: the items that pass are,
  -- in order, those whose key is confirmed (the gate is off for n ≤ 1, or the key is seen for at
  -- least the n-th time); the next pending map holds exactly the keys of the other items, each with
  -- its advanced or restarted entry; and the pending keys are the same keys.
  pub apply_persistence-Gated : Gated prev n now items (apply_persistence items prev n now)
  unfolding apply_persistence off
  apply_persistence-Gated = elim (Bool-cases (leb_ℤ n (pos 1))) [
    | inl h ↦ rw (off-eq-leb_ℤ n ∙ h) (gate_off h)
    | inr h ↦
        rw (off-eq-leb_ℤ n ∙ h) (gate_on (if ltb_ℤ n (pos 1) then pos 1 else n) (ground arith) h)
  ]
