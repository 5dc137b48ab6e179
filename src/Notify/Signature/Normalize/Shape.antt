-- ===== src/Notify/Signature/Normalize/Shape.antt =====
-- notify/signature.go: the shape of the fields that the normalisation changes.
use weops_inspect.Prelude.{
  ℕ, ◌≡◌, refl, sym, ap, ◌∙◌, ◌≢◌, ◌⊎◌, inl, inr, true, not, Option, none, some, [], ◌∷◌, ◌++◌,
  arith, ◌==◌, Bool-cases, Option-cases, all, Str, codes, str_eq_iff,
}
use weops_inspect.Notify.Signature.{
  strip_prefix, cut_dot, ends_with, kind_of, normalize_kind, normalize_cut, normalize_rest,
  normalize_field_for_signature,
}
use weops_inspect.Notify.Signature.Normalize.{
  prefix, is_vhost, is_queue, Kind, no_consumer, backlog, kind_name, queue_field, vhost_field,
  normalize_queue_field, vhost_field_fixed,
}

-- The parts of a field of the pattern.
pub record Queue (f : Str) : Type 0 where
  pub vhost : Str
  pub queue : Str
  pub kind : Kind
  pub vhost_fits : is_vhost vhost ≡ true
  pub queue_fits : is_queue queue ≡ true
  pub parts : f ≡ queue_field vhost queue kind

strip_prefix_sound : (p s r : Str) → strip_prefix p s ≡ some r → s ≡ p ++ r
unfolding strip_prefix
strip_prefix_sound [] s r h = ground arith
strip_prefix_sound (x ∷ p) [] r h = cc
strip_prefix_sound (x ∷ p) (c ∷ s) r h = ground (arith, strip_prefix_sound p s r)

cut_dot_sound :
    (s v t : Str)
    → cut_dot s ≡ some (v, t)
    → (s ≡ v ++ b'.' ∷ t) × (all (λ d. not (d == b'.')) v ≡ true)
unfolding cut_dot all
cut_dot_sound [] v t h = cc
cut_dot_sound (c ∷ s) [] t h = ground arith
cut_dot_sound (c ∷ s) (d ∷ v) t h = ground (arith, cut_dot_sound s v t)

is_queue-cons :
    (c : ℕ) (q : Str) → not (c == 10) ≡ true → is_queue q ≡ true → is_queue (c ∷ q) ≡ true
unfolding is_queue all
is_queue-cons c [] h g = cc
is_queue-cons c (d ∷ q) h g = ground arith

is_queue-single : (c : ℕ) → not (c == 10) ≡ true → is_queue (c ∷ []) ≡ true
unfolding is_queue all
is_queue-single c h = ground arith

ends_with_step :
    (suffix s : Str) (c : ℕ)
    → ends_with suffix (c ∷ s) ≡ true
    → (not (c == 10) ≡ true) × ((s ≡ suffix) ⊎ (ends_with suffix s ≡ true))
unfolding ends_with
ends_with_step suffix s c h = ground (arith, str_eq_iff s suffix)

ends_with_sound :
    (suffix s : Str)
    → ends_with suffix s ≡ true
    → (q : Str) × (is_queue q ≡ true) × (s ≡ q ++ suffix)
ends_with_sound suffix [] h = unfold ends_with in cc h
ends_with_sound suffix (c ∷ s) h =
    let step = ends_with_step suffix s c h in
    elim step.1 [
      | inl e ↦ (c ∷ [], is_queue-single c step.0, ap (λ t. c ∷ t) e)
      | inr e ↦
          let found = ends_with_sound suffix s e in
          (c ∷ found.0, is_queue-cons c found.0 step.0 found.1, ap (λ t. c ∷ t) found.2)
    ]

kind_of_sound :
    (t name : Str)
    → kind_of t ≡ some name
    → (q : Str) × (k : Kind) × (is_queue q ≡ true)
      × (t ≡ q ++ b'.' ∷ kind_name k)
      × (name ≡ kind_name k)
unfolding kind_of
kind_of_sound t name h = elim (Bool-cases (ends_with (codes ".no_consumer") t)) [
  | inl e ↦
      let found = ends_with_sound (codes ".no_consumer") t e in
      (found.0, no_consumer, found.1, found.2, ground arith)
  | inr e ↦
      let b : ends_with (codes ".backlog") t ≡ true = ground arith in
      let found = ends_with_sound (codes ".backlog") t b in
      (found.0, backlog, found.1, found.2, ground arith)
]

is_vhost-cons :
    (c : ℕ) (v : Str) → all (λ d. not (d == b'.')) (c ∷ v) ≡ true → is_vhost (c ∷ v) ≡ true
unfolding is_vhost
is_vhost-cons c v h = h

-- A field has the parts of the pattern and is normalised to its virtual host and kind, or it is
-- left alone.
Normalized : Str → Type 0
Normalized f =
    ((p : Queue f) × (normalize_field_for_signature f ≡ vhost_field p.vhost p.kind))
    ⊎ (normalize_field_for_signature f ≡ f)

build_shape : (f : Str) → Queue f → Normalized f
unfolding Normalized
build_shape f p = inl (
  p,
  ap normalize_field_for_signature p.parts
      ∙ normalize_queue_field p.vhost p.queue p.kind p.vhost_fits p.queue_fits,
)

cut_shape :
    (f rest : Str) (o : Option (Str × Str))
    → f ≡ prefix ++ rest
    → cut_dot rest ≡ o
    → (normalize_field_for_signature f ≡ normalize_cut f o)
    → Normalized f
cut_shape f rest none e g n = unfold Normalized normalize_cut in inr n
cut_shape f rest (some ([], t)) e g n = unfold Normalized normalize_cut in inr n
cut_shape f rest (some (c ∷ v, t)) e g n = elim (Option-cases (kind_of t)) [
  | inl h ↦ unfold Normalized in inr (n ∙ (unfold normalize_cut normalize_kind in rw h))
  | inr (name, h) ↦
      let cut = cut_dot_sound rest (c ∷ v) t g in
      let found = kind_of_sound t name h in
      build_shape f (record {
        vhost = c ∷ v;
        queue = found.0;
        kind = found.1;
        vhost_fits = is_vhost-cons c v cut.1;
        queue_fits = found.2;
        parts = e ∙ ap (λ r. prefix ++ r) (cut.0 ∙ ap (λ r. (c ∷ v) ++ b'.' ∷ r) found.3);
      })
]

normalize-Normalized : (f : Str) → Normalized f
normalize-Normalized f = elim (Option-cases (strip_prefix prefix f)) [
  | inl h ↦ unfold Normalized in inr (unfold normalize_field_for_signature normalize_rest in rw h)
  | inr (rest, h) ↦
      cut_shape f rest (cut_dot rest) (strip_prefix_sound prefix f rest h) refl
        (unfold normalize_field_for_signature normalize_rest in rw h)
]

-- Every field that the normalisation changes has the form rabbitmq.<vhost>.<queue>.<kind>, with no
-- dot in a virtual host that is not empty, a queue that is not empty and holds no line feed, and
-- becomes rabbitmq.<vhost>.<kind>.
pub normalize_changes :
    (f : Str)
    → normalize_field_for_signature f ≢ f
    → (p : Queue f) × (normalize_field_for_signature f ≡ vhost_field p.vhost p.kind)
unfolding Normalized
normalize_changes f h = elim (normalize-Normalized f) [ inl p ↦ p | inr e ↦ absurd (h e) ]

-- Normalising twice is normalising once.
pub normalize_idem :
    (f : Str)
    → normalize_field_for_signature (normalize_field_for_signature f)
      ≡ normalize_field_for_signature f
unfolding Normalized
normalize_idem f = elim (normalize-Normalized f) [
  | inl (p, e) ↦
      ap normalize_field_for_signature e ∙ vhost_field_fixed p.vhost p.kind p.vhost_fits ∙ sym e
  | inr e ↦ ap normalize_field_for_signature e
]
