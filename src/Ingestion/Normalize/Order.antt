-- ===== src/Ingestion/Normalize/Order.antt =====
-- What a fingerprint depends on (computeFingerprint of
-- services/ingestion/internal/handler/normalize.go).
use Prim.Native.String.{◌++◌ as ◌<>◌}
use text.Mathlib.TextLemmas.{append_assoc}
use mathlib.Core.List.{Permᴰ}
use mathlib.Core.List.Permᴰ.{nil, cons, swap, trans}
use sreon_call.Prelude.{
  ◌≡◌, ◌≢◌, refl, sym, ap, subst, ◌∙◌, inl, inr, String, str_eq, eq_iff, List, [], ◌∷◌, true, false,
  if◌then◌else◌, Bool-cases, All,
}
use sreon_call.Incident.Types.{Labels, label_of, Alert}
use sreon_call.Ingestion.Normalize.{
  Library, keys_of, write_labels, fingerprint_text, compute_fingerprint,
}

-- The pairs of a map.
abbrev pub HasUniqueKeys : Labels → Type 0
HasUniqueKeys [] = Unit
HasUniqueKeys (l ∷ rest) = All (λ m. l.0 ≢ m.0) rest × HasUniqueKeys rest

All-Perm : {A : Type 0} (P : A → Type 0) {xs ys : List A} → Permᴰ xs ys → All P xs → All P ys
All-Perm P nil h = h
All-Perm P (cons p rest) h = (subst P p h.0, All-Perm P rest h.1)
All-Perm P (swap p q) h = (subst P q (h.1).0, (subst P p h.0, (h.1).1))
All-Perm P (trans p q) h = All-Perm P q (All-Perm P p h)

HasUniqueKeys-Perm : {l m : Labels} → Permᴰ l m → HasUniqueKeys l → HasUniqueKeys m
HasUniqueKeys-Perm nil h = h
HasUniqueKeys-Perm (cons {a} {l₂ = m} p rest) (apart, h) = (
  subst (λ (q : String × String). All (λ (r : String × String). q.0 ≢ r.0) m) p
      (All-Perm (λ (r : String × String). a.0 ≢ r.0) rest apart),
  HasUniqueKeys-Perm rest h,
)
HasUniqueKeys-Perm (swap {l = l} p q) ((ab, al), (bl, h)) = (
  (
    λ e. ab (ap (λ r. r.0) p ∙ sym e ∙ ap (λ r. r.0) (sym q)),
    subst (λ (r : String × String). All (λ (m : String × String). r.0 ≢ m.0) l) q bl,
  ),
  (subst (λ (r : String × String). All (λ (m : String × String). r.0 ≢ m.0) l) p al, h),
)
HasUniqueKeys-Perm (trans p q) h = HasUniqueKeys-Perm q (HasUniqueKeys-Perm p h)

swapped :
    (key : String) (a b : String × String) (l : Labels)
    → a.0 ≢ b.0
    → label_of key (a ∷ b ∷ l) ≡ label_of key (b ∷ a ∷ l)
swapped key a b l h = elim (Bool-cases (str_eq a.0 key)) [
  | inl hit ↦ elim (Bool-cases (str_eq b.0 key)) [
    | inl both ↦ absurd (h ((eq_iff a.0 key).0 hit ∙ sym ((eq_iff b.0 key).0 both)))
    | inr miss ↦ rw hit (rw miss refl)
  ]
  | inr miss ↦ rw miss refl
]

-- A value that is looked up does not depend on the order of the pairs.
label_of-Perm :
    (key : String) {l m : Labels} → Permᴰ l m → HasUniqueKeys l → label_of key l ≡ label_of key m
label_of-Perm key nil h = refl
label_of-Perm key (cons {b = b} {l₁ = l} p rest) h =
    ap (λ q. label_of key (q ∷ l)) p
    ∙ ap (λ v. if str_eq b.0 key then b.1 else v) (label_of-Perm key rest h.1)
label_of-Perm key (swap {a} {b} {a'} {b'} {l} p q) ((ab, al), h) =
    swapped key a b l ab
    ∙ ap (λ r. label_of key (b ∷ r ∷ l)) p
    ∙ ap (λ r. label_of key (r ∷ b' ∷ l)) q
label_of-Perm key (trans p q) h =
    label_of-Perm key p h ∙ label_of-Perm key q (HasUniqueKeys-Perm p h)

same_text :
    (ks : List String) (l m : Labels)
    → ((key : String) → label_of key l ≡ label_of key m)
    → write_labels ks l ≡ write_labels ks m
unfolding write_labels
same_text [] l m h = refl
same_text (k ∷ ks) l m h = rw (h k) (rw (same_text ks l m h) refl)

-- Alerts of one source and tenant whose labels are the same map, in whatever order its pairs come, have the
-- same fingerprint, where `sort.Strings` gives the same for their keys; the status, the severity, the texts and the times do not matter. So a notice that an
-- alert is resolved has the fingerprint of the one that fired.
pub compute_fingerprint_order :
    (lib : Library) (a b : Alert)
    → lib.sort_strings (keys_of a.labels) ≡ lib.sort_strings (keys_of b.labels)
    → a.source ≡ b.source
    → a.tenant_id ≡ b.tenant_id
    → HasUniqueKeys a.labels
    → Permᴰ a.labels b.labels
    → compute_fingerprint lib a ≡ compute_fingerprint lib b
unfolding compute_fingerprint fingerprint_text
compute_fingerprint_order lib a b orderly source tenant unique perm =
    let written : write_labels (lib.sort_strings (keys_of a.labels)) a.labels
        ≡ write_labels (lib.sort_strings (keys_of b.labels)) b.labels =
      ap (λ ks. write_labels ks a.labels) orderly
      ∙ same_text (lib.sort_strings (keys_of b.labels)) a.labels b.labels
          (λ key. label_of-Perm key perm unique) in
    cc

-- ── Labels that the text does not tell apart

regrouped :
    (a b c d e f : String) → (a <> (b <> (c <> (d <> e)))) <> f ≡ a <> (b <> (c <> (d <> (e <> f))))
regrouped a b c d e f =
    append_assoc a (b <> (c <> (d <> e))) f
    ∙ ap (λ z. a <> z)
        (append_assoc b (c <> (d <> e)) f
          ∙ ap (λ z. b <> z) (append_assoc c (d <> e) f ∙ ap (λ z. c <> z) (append_assoc d e f)))

not_same : (k k' : String) → k ≢ k' → str_eq k k' ≡ false
not_same k k' differ = elim (Bool-cases (str_eq k k')) [
  | inl same ↦ absurd (differ ((eq_iff k k').0 same))
  | inr differs ↦ differs
]

written_alike :
    (k v k' v' : String)
    → k ≢ k'
    → write_labels (k ∷ []) ((k, v <> ("," <> (k' <> ("=" <> v')))) ∷ [])
      ≡ write_labels (k ∷ k' ∷ []) ((k, v) ∷ (k', v') ∷ [])
unfolding write_labels
written_alike k v k' v' differ =
    let itself : str_eq k k ≡ true = (eq_iff k k).1 refl in
    let itself' : str_eq k' k' ≡ true = (eq_iff k' k').1 refl in
    rw itself (
      rw itself' (
        rw (not_same k k' differ)
          (ap (λ z. k <> ("=" <> z)) (regrouped v "," k' "=" v' ("," <> "")))))

-- A value may hold the marks that part the labels in the text, so a label whose value goes on like a second
-- label has the fingerprint of the two labels, which are another map.
pub compute_fingerprint_collides :
    (lib : Library) (a : Alert) (k v k' v' : String)
    → lib.sort_strings (k ∷ []) ≡ k ∷ []
    → lib.sort_strings (k ∷ k' ∷ []) ≡ k ∷ k' ∷ []
    → k ≢ k'
    → compute_fingerprint lib (record a { labels = (k, v <> ("," <> (k' <> ("=" <> v')))) ∷ [] })
      ≡ compute_fingerprint lib (record a { labels = (k, v) ∷ (k', v') ∷ [] })
unfolding compute_fingerprint fingerprint_text write_labels
compute_fingerprint_collides lib a k v k' v' one two differ =
    ap (λ text. lib.sha256_hex (text <> ("source=" <> (a.source <> (",tenant=" <> a.tenant_id)))))
      (ap (λ ks. write_labels ks ((k, v <> ("," <> (k' <> ("=" <> v')))) ∷ [])) one
        ∙ written_alike k v k' v' differ
        ∙ ap (λ ks. write_labels ks ((k, v) ∷ (k', v') ∷ [])) (sym two))
