-- ===== src/Util/Config/Table.antt =====
-- What is found in a table after an insertion or a write.
use dbstream.Common.{
  ℕ, ◌≡◌, refl, sym, ap, ◌∙◌, ◌≢◌, inl, inr, true, false, none, some, List, [], ◌∷◌, ◌==◌,
  if◌then◌else◌, Bool-cases, arith,
}
use dbstream.Util.Config.{same_text, lookup, insert_new, store}

same_text-eq : (s t : List ℕ) → same_text s t ≡ true → s ≡ t
same_text-eq [] [] h = refl
same_text-eq [] (d ∷ t) h = absurd (ground arith)
same_text-eq (c ∷ s) [] h = absurd (ground arith)
same_text-eq (c ∷ s) (d ∷ t) h = elim (Bool-cases (c == d)) [
  | inl b ↦
      let e : c ≡ d = ground arith in
      let h' : same_text s t ≡ true = ground (arith, b) in
      ap (λ x. x ∷ s) e ∙ ap (λ y. d ∷ y) (same_text-eq s t h')
  | inr b ↦ absurd (ground arith)
]

same_text_self : (s : List ℕ) → same_text s s ≡ true
same_text_self [] = refl
same_text_self (c ∷ s) = let b : (c == c) ≡ true = ground arith in rw (b) (same_text_self s)

same_text_other : (s t : List ℕ) → s ≢ t → same_text s t ≡ false
same_text_other s t n = elim (Bool-cases (same_text s t)) [
  | inl b ↦ absurd (n (same_text-eq s t b))
  | inr b ↦ b
]

module _ {ℓ} {V : Type ℓ} where
  lookup_here :
      (k key : List ℕ) (w : V) (m : List (List ℕ × V))
      → same_text k key ≡ true
      → lookup ((k, w) ∷ m) key ≡ some w
  unfolding lookup
  lookup_here k key w m b = rw (b) refl

  lookup_there :
      (k key : List ℕ) (w : V) (m : List (List ℕ × V))
      → same_text k key ≡ false
      → lookup ((k, w) ∷ m) key ≡ lookup m key
  unfolding lookup
  lookup_there k key w m b = rw (b) refl

  lookup-tail :
      (k key : List ℕ) (w : V) (m m' : List (List ℕ × V))
      → lookup m key ≡ lookup m' key
      → lookup ((k, w) ∷ m) key ≡ lookup ((k, w) ∷ m') key
  unfolding lookup
  lookup-tail k key w m m' e = ap (λ r. if same_text k key then some w else r) e

  -- An insertion is seen if the key was not there, and does nothing if it was.
  pub lookup-insert_new :
      (m : List (List ℕ × V)) (key : List ℕ) (v : V)
      → lookup m key ≡ none
      → lookup (insert_new m key v) key ≡ some v
  unfolding insert_new
  lookup-insert_new [] key v h = lookup_here key key v [] (same_text_self key)
  lookup-insert_new ((k, w) ∷ m) key v h = elim (Bool-cases (same_text k key)) [
    | inl b ↦ absurd (let e = sym (lookup_here k key w m b) ∙ h in ground arith)
    | inr b ↦
        ap (λ t. lookup (if t then (k, w) ∷ m else (k, w) ∷ insert_new m key v) key) b
        ∙ lookup_there k key w (insert_new m key v) b
        ∙ lookup-insert_new m key v (sym (lookup_there k key w m b) ∙ h)
  ]

  pub insert_new_present :
      (m : List (List ℕ × V)) (key : List ℕ) (v w : V)
      → lookup m key ≡ some w
      → insert_new m key v ≡ m
  unfolding lookup insert_new
  insert_new_present [] key v w h = absurd (ground arith)
  insert_new_present ((k, x) ∷ m) key v w h = elim (Bool-cases (same_text k key)) [
    | inl b ↦ rw (b) refl
    | inr b ↦
        rw (b)
          (ap (λ r. (k, x) ∷ r) (insert_new_present m key v w (sym (lookup_there k key x m b) ∙ h)))
  ]

  pub lookup-insert_new_other :
      (m : List (List ℕ × V)) (key other : List ℕ) (v : V)
      → key ≢ other
      → lookup (insert_new m key v) other ≡ lookup m other
  unfolding insert_new
  lookup-insert_new_other [] key other v n =
      lookup_there key other v [] (same_text_other key other n)
  lookup-insert_new_other ((k, w) ∷ m) key other v n = elim (Bool-cases (same_text k key)) [
    | inl b ↦ ap (λ t. lookup (if t then (k, w) ∷ m else (k, w) ∷ insert_new m key v) other) b
    | inr b ↦
        ap (λ t. lookup (if t then (k, w) ∷ m else (k, w) ∷ insert_new m key v) other) b
        ∙ lookup-tail k other w (insert_new m key v) m (lookup-insert_new_other m key other v n)
  ]

  pub lookup-store :
      (m : List (List ℕ × V)) (key : List ℕ) (v w : V)
      → lookup m key ≡ some w
      → lookup (store m key v) key ≡ some v
  unfolding store lookup
  lookup-store [] key v w h = absurd (ground arith)
  lookup-store ((k, x) ∷ m) key v w h = elim (Bool-cases (same_text k key)) [
    | inl b ↦
        ap (λ t. lookup (if t then (k, v) ∷ m else (k, x) ∷ store m key v) key) b
        ∙ lookup_here k key v m b
    | inr b ↦
        ap (λ t. lookup (if t then (k, v) ∷ m else (k, x) ∷ store m key v) key) b
        ∙ lookup_there k key x (store m key v) b
        ∙ lookup-store m key v w (sym (lookup_there k key x m b) ∙ h)
  ]

  pub lookup-store_other :
      (m : List (List ℕ × V)) (key other : List ℕ) (v : V)
      → key ≢ other
      → lookup (store m key v) other ≡ lookup m other
  unfolding store
  lookup-store_other [] key other v n = refl
  lookup-store_other ((k, w) ∷ m) key other v n = elim (Bool-cases (same_text k key)) [
    | inl b ↦
        let c = same_text_other k other (λ e. n (sym (same_text-eq k key b) ∙ e)) in
        ap (λ t. lookup (if t then (k, v) ∷ m else (k, w) ∷ store m key v) other) b
        ∙ lookup_there k other v m c
        ∙ sym (lookup_there k other w m c)
    | inr b ↦
        ap (λ t. lookup (if t then (k, v) ∷ m else (k, w) ∷ store m key v) other) b
        ∙ lookup-tail k other w (store m key v) m (lookup-store_other m key other v n)
  ]
