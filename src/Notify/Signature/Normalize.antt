-- ===== src/Notify/Signature/Normalize.antt =====
-- notify/signature.go: the RabbitMQ pattern of a field.
pub mod Shape
use weops_inspect.Prelude.{
  ℕ, ◌≡◌, refl, sym, ap, ◌∙◌, ◌≢◌, ◌⊎◌, inl, inr, Bool, true, false, not, Option, none, some, [],
  ◌∷◌, ◌++◌, arith, ◌==◌, Bool-cases, Option-cases, all, Str, codes, str_eq, str_eq_iff,
  str_eq_refl,
}
use weops_inspect.Notify.Alerts.{AlertItem}
use weops_inspect.Notify.Signature.{
  strip_prefix, cut_dot, ends_with, kind_of, normalize_kind, normalize_cut, normalize_rest,
  normalize_field_for_signature, signature_key,
}

abbrev pub prefix : Str
prefix = codes "rabbitmq."

-- A virtual host as the pattern takes it: one character or more, and no dot.
unfoldable pub is_vhost : Str → Bool
is_vhost [] = false
is_vhost (c ∷ s) = all (λ d. not (d == b'.')) (c ∷ s)

-- A queue name as the pattern takes it: one character or more, and no line feed.
unfoldable pub is_queue : Str → Bool
is_queue [] = false
is_queue (c ∷ s) = all (λ d. not (d == 10)) (c ∷ s)

pub data Kind : Type 0 where
  no_consumer backlog : Kind

abbrev pub kind_name : Kind → Str
kind_name no_consumer = codes "no_consumer"
kind_name backlog = codes "backlog"

-- rabbitmq.<vhost>.<queue>.<kind>
abbrev pub queue_field : Str → Str → Kind → Str
queue_field vhost queue kind = prefix ++ vhost ++ b'.' ∷ (queue ++ b'.' ∷ kind_name kind)

-- rabbitmq.<vhost>.<kind>
abbrev pub vhost_field : Str → Kind → Str
vhost_field vhost kind = prefix ++ vhost ++ b'.' ∷ kind_name kind

cut_dot_lem :
    (v r : Str) → all (λ d. not (d == b'.')) v ≡ true → cut_dot (v ++ b'.' ∷ r) ≡ some (v, r)
unfolding cut_dot all
cut_dot_lem [] r h = refl
cut_dot_lem (c ∷ v) r h = ground (arith, cut_dot_lem v r)

ends_with_lem : (q suffix : Str) → is_queue q ≡ true → ends_with suffix (q ++ suffix) ≡ true
unfolding ends_with is_queue all
ends_with_lem [] suffix h = cc
ends_with_lem (c ∷ []) suffix h = ground (arith, str_eq_refl suffix)
ends_with_lem (c ∷ d ∷ q) suffix h = ground (arith, ends_with_lem (d ∷ q) suffix)

last_char : ℕ → Str → ℕ
last_char d [] = d
last_char d (c ∷ s) = last_char c s

ends_with-last_char :
    (d : ℕ) (t : Str) → ends_with (codes ".no_consumer") t ≡ true → last_char d t ≡ b'r'
unfolding ends_with last_char
ends_with-last_char d [] h = cc
ends_with-last_char d (c ∷ s) h = elim (Bool-cases (str_eq s (codes ".no_consumer"))) [
  | inl e ↦ rw ((str_eq_iff s _).0 e)
  | inr e ↦ ends_with-last_char c s (ground arith)
]

last_char-append : (d : ℕ) (q : Str) → last_char d (q ++ codes ".backlog") ≡ b'g'
unfolding last_char
last_char-append d [] = refl
last_char-append d (c ∷ q) = last_char-append c q

not_no_consumer : (q : Str) → ends_with (codes ".no_consumer") (q ++ codes ".backlog") ≡ false
not_no_consumer q = elim (Bool-cases (ends_with (codes ".no_consumer") (q ++ codes ".backlog"))) [
  | inl e ↦
      let r = ends_with-last_char 0 (q ++ codes ".backlog") e in
      absurd (omega (arith, r, last_char-append 0 q))
  | inr e ↦ e
]

kind_of_lem :
    (q : Str) (k : Kind)
    → is_queue q ≡ true
    → kind_of (q ++ b'.' ∷ kind_name k) ≡ some (kind_name k)
unfolding kind_of
kind_of_lem q no_consumer h = rw (ends_with_lem q (codes ".no_consumer") h)
kind_of_lem q backlog h = rw (not_no_consumer q, ends_with_lem q (codes ".backlog") h)

-- The field stays whole under this call, so that its parts can be rewritten.
normalize_lem :
    (field rest v t : Str) (c : ℕ)
    → strip_prefix prefix field ≡ some rest
    → cut_dot rest ≡ some (c ∷ v, t)
    → normalize_field_for_signature field ≡ normalize_kind field (c ∷ v) (kind_of t)
normalize_lem field rest v t c e f =
    unfold normalize_field_for_signature in
    rw e (unfold normalize_rest in rw f (unfold normalize_cut in refl))

strip_prefix_lem : (r : Str) → strip_prefix prefix (prefix ++ r) ≡ some r
unfolding strip_prefix
strip_prefix_lem r = refl

-- A field of the pattern, whatever the queue is named, is normalised to its virtual host and kind.
pub normalize_queue_field :
    (v q : Str) (k : Kind)
    → is_vhost v ≡ true
    → is_queue q ≡ true
    → normalize_field_for_signature (queue_field v q k) ≡ vhost_field v k
unfolding is_vhost
normalize_queue_field [] q k h g = cc
normalize_queue_field (c ∷ v) q k h g =
    let t = q ++ b'.' ∷ kind_name k in
    let rest = (c ∷ v) ++ b'.' ∷ t in
    normalize_lem (prefix ++ rest) rest v t c (strip_prefix_lem rest) (cut_dot_lem (c ∷ v) t h)
    ∙ ap (normalize_kind (prefix ++ rest) (c ∷ v)) (kind_of_lem q k g)
    ∙ (unfold normalize_kind in refl)

-- Two queues of one virtual host that raise the same kind of alert on the same host have one key,
-- where the name of the virtual host is not empty and has no dot, and the names of the queues are not
-- empty and have no line feed.
pub signature_key-queue :
    (a b : AlertItem) (v q r : Str) (k : Kind)
    → a.host ≡ b.host
    → is_vhost v ≡ true
    → is_queue q ≡ true
    → is_queue r ≡ true
    → a.field ≡ queue_field v q k
    → b.field ≡ queue_field v r k
    → signature_key a ≡ signature_key b
unfolding signature_key
signature_key-queue a b v q r k eh hv hq hr ea eb =
    rw (ea, eb, eh, normalize_queue_field v q k hv hq, normalize_queue_field v r k hv hr)

pub kind_of-kind_name : (k : Kind) → kind_of (kind_name k) ≡ none
unfolding kind_of
kind_of-kind_name no_consumer = refl
kind_of-kind_name backlog = refl

pub vhost_field_fixed :
    (v : Str) (k : Kind)
    → is_vhost v ≡ true
    → normalize_field_for_signature (vhost_field v k) ≡ vhost_field v k
unfolding is_vhost
vhost_field_fixed [] k h = cc
vhost_field_fixed (c ∷ v) k h =
    let rest = (c ∷ v) ++ b'.' ∷ kind_name k in
    normalize_lem (prefix ++ rest) rest v (kind_name k) c (strip_prefix_lem rest)
      (cut_dot_lem (c ∷ v) (kind_name k) h)
    ∙ ap (normalize_kind (prefix ++ rest) (c ∷ v)) (kind_of-kind_name k)
    ∙ (unfold normalize_kind in refl)
