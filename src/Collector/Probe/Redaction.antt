-- ===== src/Collector/Probe/Redaction.antt =====
-- collector/probe.go: passwords in DSNs and URIs, and the class of a failed probe.
use weops_inspect.Prelude.{
  ℕ, zero, suc, ◌+◌, ◌-◌, ◌≡◌, refl, sym, ap, ◌∙◌, Bool, true, false, not, ◌&&◌, Option, none, some,
  [], ◌∷◌, ◌++◌, arith, length, all, drop, is_empty, ℤ, Str, codes,
}
use mathlib.Core.List.{append_assoc}
use weops_inspect.Prelude.Strings.{has_prefix}
use weops_inspect.Collector.Probe.{
  Failure, ProbeResult, is_none_class, classify, classify_failure, classify_text, run_probe,
  is_user, is_secret, is_blank, span, match_secret, match_user, match_dsn, redact_from, redact_dsn,
}

-- A text that is not empty, of characters that pass the test.
unfoldable pub is_run : (ℕ → Bool) → Str → Bool
is_run p s = not (is_empty s) && all p s

span-run :
    (p : ℕ → Bool) (s : Str) (c : ℕ) (rest : Str)
    → all p s ≡ true
    → p c ≡ false
    → span p (s ++ c ∷ rest) ≡ (s, c ∷ rest)
unfolding span all
span-run p [] c rest h g = ground arith
span-run p (d ∷ s) c rest h g = ground (arith, span-run p s c rest)

-- user:secret@rest
abbrev pub with_secret : Str → Str → Str → Str
with_secret user secret rest = user ++ b':' ∷ (secret ++ b'@' ∷ rest)

redact_skip :
    (xs rest : Str) (n k : ℕ) → n ≡ length xs + k → redact_from n (xs ++ rest) ≡ redact_from k rest
unfolding redact_from
redact_skip [] rest n k e = ap (λ m. redact_from m rest) (e ∙ omega arith)
redact_skip (c ∷ xs) rest zero k e = absurd (omega (arith, e))
redact_skip (c ∷ xs) rest (suc n) k e = redact_skip xs rest n k (omega (arith, e))

skip_secret :
    (user secret rest : Str)
    → redact_from (length user + length secret + 2) (with_secret user secret rest)
      ≡ redact_from 0 rest
unfolding redact_from
skip_secret user secret rest =
    redact_skip user (b':' ∷ (secret ++ b'@' ∷ rest)) (length user + length secret + 2)
      (suc (length secret + 1)) (omega arith)
    ∙ redact_skip secret (b'@' ∷ rest) (length secret + 1) 1 (omega arith)

run_some : (p : ℕ → Bool) (s : Str) → is_run p s ≡ true → (is_empty s ≡ false) × (all p s ≡ true)
unfolding is_run
run_some p s h = ground arith

match_secret-run :
    (user secret rest : Str)
    → is_run is_secret secret ≡ true
    → match_secret user (b':' ∷ (secret ++ b'@' ∷ rest))
      ≡ some (user ++ codes ":***@", length user + length secret + 2)
unfolding match_secret has_prefix
match_secret-run user secret rest h =
    let r = run_some is_secret secret h in
    rw (span-run is_secret secret b'@' rest r.1 (unfold is_secret is_blank in refl)) (rw r.0 refl)

match_user-run :
    (user secret rest : Str)
    → is_run is_user user ≡ true
    → is_run is_secret secret ≡ true
    → match_user (with_secret user secret rest)
      ≡ some (user ++ codes ":***@", length user + length secret + 2)
unfolding match_user
match_user-run user secret rest h g =
    let r = run_some is_user user h in
    rw (span-run is_user user b':' (secret ++ b'@' ∷ rest) r.1 (unfold is_user is_blank in refl))
      (rw r.0 (match_secret-run user secret rest g))

not_scheme : (c : ℕ) (s : Str) → is_user c ≡ true → has_prefix (codes "://") (c ∷ s) ≡ false
unfolding is_user has_prefix
not_scheme c s h = ground arith

redact_match :
    (c : ℕ) (s out : Str) (n : ℕ)
    → match_dsn (c ∷ s) ≡ some (out, n)
    → redact_from 0 (c ∷ s) ≡ out ++ redact_from (n - 1) s
unfolding redact_from
redact_match c s out n e = rw (e, redact_from) refl

redact_no_match :
    (c : ℕ) (s : Str) → match_dsn (c ∷ s) ≡ none → redact_from 0 (c ∷ s) ≡ c ∷ redact_from 0 s
unfolding redact_from
redact_no_match c s e = rw (e, redact_from) refl

first_is_user : (c : ℕ) (s : Str) → is_run is_user (c ∷ s) ≡ true → is_user c ≡ true
unfolding is_run all
first_is_user c s h = ground arith

redact_user :
    (user secret rest : Str)
    → is_run is_user user ≡ true
    → is_run is_secret secret ≡ true
    → redact_from 0 (with_secret user secret rest) ≡ (user ++ codes ":***@") ++ redact_from 0 rest
unfolding match_dsn
redact_user [] secret rest h g = unfold is_run in cc h
redact_user (c ∷ u) secret rest h g =
    let plain_start = not_scheme c (u ++ b':' ∷ (secret ++ b'@' ∷ rest)) (first_is_user c u h) in
    redact_match c (u ++ b':' ∷ (secret ++ b'@' ∷ rest)) ((c ∷ u) ++ codes ":***@")
      (length (c ∷ u) + length secret + 2) (rw plain_start (match_user-run (c ∷ u) secret rest h g))
    ∙ ap (λ t. ((c ∷ u) ++ codes ":***@") ++ t)
        (ap (λ n. redact_from n (u ++ b':' ∷ (secret ++ b'@' ∷ rest))) (omega arith)
          ∙ skip_secret u secret rest)

redact_uri :
    (user secret rest : Str)
    → is_run is_user user ≡ true
    → is_run is_secret secret ≡ true
    → redact_from 0 (codes "://" ++ with_secret user secret rest)
      ≡ (codes "://" ++ (user ++ codes ":***@")) ++ redact_from 0 rest
unfolding match_dsn has_prefix drop
redact_uri user secret rest h g =
    redact_match b':' (codes "//" ++ with_secret user secret rest)
      (codes "://" ++ (user ++ codes ":***@")) (length user + length secret + 2 + 3)
      (rw (match_user-run user secret rest h g) refl)
    ∙ ap (λ t. (codes "://" ++ (user ++ codes ":***@")) ++ t)
        (redact_skip (codes "//") (with_secret user secret rest)
            (length user + length secret + 2 + 3 - 1) (length user + length secret + 2)
            (omega arith)
          ∙ skip_secret user secret rest)

-- A scheme is no user: a slash follows its colon.
scheme_no_match :
    (c : ℕ) (scheme rest : Str)
    → all is_user (c ∷ scheme) ≡ true
    → match_dsn (c ∷ (scheme ++ (codes "://" ++ rest))) ≡ none
unfolding match_dsn match_user match_secret
scheme_no_match c scheme rest h =
    let start = not_scheme c (scheme ++ (codes "://" ++ rest)) (first_user c scheme h) in
    rw
      (
        start,
        span-run is_user (c ∷ scheme) b':' (codes "//" ++ rest) h (unfold is_user is_blank in refl),
      )
      (unfold span is_secret is_blank has_prefix in refl)
  where
    first_user : (d : ℕ) (t : Str) → all is_user (d ∷ t) ≡ true → is_user d ≡ true
    first_user d t e = unfold all in ground (arith, e)

-- What stands before the password of a DSN: nothing, or a scheme.
abbrev pub lead : Option Str → Str
lead none = []
lead (some scheme) = scheme ++ codes "://"

abbrev pub is_lead : Option Str → Bool
is_lead none = true
is_lead (some scheme) = all is_user scheme

redact_scheme :
    (scheme user secret rest : Str)
    → all is_user scheme ≡ true
    → is_run is_user user ≡ true
    → is_run is_secret secret ≡ true
    → redact_from 0 (scheme ++ (codes "://" ++ with_secret user secret rest))
      ≡ scheme ++ ((codes "://" ++ (user ++ codes ":***@")) ++ redact_from 0 rest)
redact_scheme [] user secret rest a h g = redact_uri user secret rest h g
redact_scheme (c ∷ scheme) user secret rest a h g =
    redact_no_match c (scheme ++ (codes "://" ++ with_secret user secret rest))
      (scheme_no_match c scheme (with_secret user secret rest) a)
    ∙ ap (λ t. c ∷ t) (redact_scheme scheme user secret rest (unfold all in ground (arith, a)) h g)

redact_dsn-from : (s : Str) → redact_dsn s ≡ redact_from 0 s
unfolding redact_dsn redact_from
redact_dsn-from [] = refl
redact_dsn-from (c ∷ s) = refl

-- RedactDSN on a text that begins with a DSN, with or without a scheme: the password is replaced by
-- three stars, whatever it is, all else of the DSN is kept, and the rest is redacted in turn. The
-- scheme and the user hold no colon, slash, at sign or blank, the password no slash, at sign or blank,
-- and neither user nor password is empty.
pub redact_dsn_hides :
    (scheme : Option Str) (user secret rest : Str)
    → is_lead scheme ≡ true
    → is_run is_user user ≡ true
    → is_run is_secret secret ≡ true
    → redact_dsn (lead scheme ++ with_secret user secret rest)
      ≡ lead scheme ++ (user ++ codes ":***@") ++ redact_dsn rest
redact_dsn_hides none user secret rest l h g =
    redact_dsn-from (with_secret user secret rest)
    ∙ redact_user user secret rest h g
    ∙ ap (λ t. (user ++ codes ":***@") ++ t) (sym (redact_dsn-from rest))
redact_dsn_hides (some scheme) user secret rest l h g =
    ap redact_dsn (append_assoc scheme (codes "://") (with_secret user secret rest))
    ∙ redact_dsn-from (scheme ++ (codes "://" ++ with_secret user secret rest))
    ∙ redact_scheme scheme user secret rest l h g
    ∙ ap (λ t. scheme ++ ((codes "://" ++ (user ++ codes ":***@")) ++ t))
        (sym (redact_dsn-from rest))
    ∙ simp (append_assoc)

-- RunProbe: a probe that fails is never without a class.
pub run_probe-classified :
    (elapsed : ℤ) (r : ProbeResult) (e : Failure)
    → r.err ≡ some e
    → is_none_class (run_probe elapsed r).err_class ≡ false
unfolding run_probe classify classify_failure classify_text
run_probe-classified elapsed r e h = rw h (ground arith)
